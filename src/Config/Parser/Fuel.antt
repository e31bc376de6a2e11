-- ===== src/Config/Parser/Fuel.antt =====
-- src/config_parser.cc, `Parse`: its loop ends.
use bit_link.Prelude.{ℕ, zero, suc, ◌<◌, ◌≡◌, ◌≢◌, ◌⊎◌, inl, inr, refl, length, arith}
use bit_link.Str.{Bytes}
use bit_link.Config.Syntax.{NginxConfig, empty}
use bit_link.Config.Lexer.{TokenType, eof, parse_token}
use bit_link.Config.Lexer.Laws.{parse_token-IsShorter}
use bit_link.Config.Parser.{
  State, Round, continues, accepts, rejects, parse_round, on_eof, Parsed, unfinished, parse_loop,
  initial, parse,
}

-- The loop does not go on behind the end of the input.
eof_stops :
    (kind : TokenType) (t : Bytes) (s s' : State) → kind ≡ eof → parse_round kind t s ≢ continues s'
unfolding parse_round on_eof
eof_stops eof t s s' e = ground arith
eof_stops _ t s s' e = cc

pub Round-cases :
    (r : Round)
    → ((s : State) × (r ≡ continues s)) ⊎ ((c : NginxConfig) × (r ≡ accepts c)) ⊎ (r ≡ rejects)
Round-cases (continues s) = inl (s, refl)
Round-cases (accepts c) = inr (inl (c, refl))
Round-cases rejects = inr (inr refl)

-- So a round that goes on has read something.
pub continues-shorter :
    (s s' : State) (input : Bytes)
    → parse_round (parse_token input).kind (parse_token input).value s ≡ continues s'
    → length (parse_token input).rest < length input
continues-shorter s s' input e = elim (parse_token-IsShorter input) [
  | inl ends ↦ absurd (eof_stops (parse_token input).kind (parse_token input).value s s' ends e)
  | inr shorter ↦ shorter
]

-- Fuel above the length of the input is enough, and more makes no difference.
pub parse_loop_fuel :
    (n m : ℕ) (s : State) (input : Bytes)
    → length input < n
    → length input < m
    → parse_loop n s input ≡ parse_loop m s input
unfolding parse_loop
parse_loop_fuel zero m s input h k = absurd (omega arith)
parse_loop_fuel (suc n) zero s input h k = absurd (omega arith)
parse_loop_fuel (suc n) (suc m) s input h k =
    let t = parse_token input in
    elim (Round-cases (parse_round t.kind t.value s)) [
      | inl (s', e) ↦
          let shorter = continues-shorter s s' input e in
          rw (e, parse_loop) (parse_loop_fuel n m s' t.rest (omega arith) (omega arith))
      | inr (inl (c, e)) ↦ rw (e, parse_loop)
      | inr (inr e) ↦ rw (e, parse_loop)
    ]

parse_loop-ne-unfinished :
    (n : ℕ) (s : State) (input : Bytes) → length input < n → parse_loop n s input ≢ unfinished
unfolding parse_loop
parse_loop-ne-unfinished zero s input h = absurd (omega arith)
parse_loop-ne-unfinished (suc n) s input h =
    let t = parse_token input in
    elim (Round-cases (parse_round t.kind t.value s)) [
      | inl (s', e) ↦
          let shorter = continues-shorter s s' input e in
          rw (e, parse_loop) (parse_loop-ne-unfinished n s' t.rest (omega arith))
      | inr (inl (c, e)) ↦ rw (e, parse_loop) (λ bad. cc)
      | inr (inr e) ↦ rw (e, parse_loop) (λ bad. cc)
    ]

-- Parsing always ends with a configuration or a failure, whatever the text.
pub parse_total : (input : Bytes) → parse input ≢ unfinished
unfolding parse
parse_total input =
    parse_loop-ne-unfinished (suc (length input)) (initial empty) input (omega arith)

-- The loop with the fuel that its input asks for.
abbrev pub run : State → Bytes → Parsed
run s input = parse_loop (suc (length input)) s input

-- One round of it.
pub run-continues :
    (s s' : State) (input : Bytes)
    → parse_round (parse_token input).kind (parse_token input).value s ≡ continues s'
    → run s input ≡ run s' (parse_token input).rest
unfolding parse_loop
run-continues s s' input e =
    let shorter = continues-shorter s s' input e in
    rw (e, parse_loop)
      (parse_loop_fuel (length input) (suc (length (parse_token input).rest)) s'
        (parse_token input).rest (omega arith) (omega arith))
