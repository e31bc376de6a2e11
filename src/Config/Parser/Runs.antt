-- ===== src/Config/Parser/Runs.antt =====
-- src/config_parser.cc, `Parse`: its rounds on the parts of a statement.
use bit_link.Prelude.{
  ℕ, zero, suc, ◌≤◌, ◌≡◌, ◌⊎◌, inl, inr, refl, sym, ap, ◌∙◌, List, [], ◌∷◌, ◌++◌, some, Bool, true,
  false, length, All, append_assoc, append-nil, arith,
}
use bit_link.Str.{Bytes, codes}
use bit_link.Config.Syntax.{NginxConfig, empty, plain, block, indent, show_tokens}
use bit_link.Config.Lexer.{
  TokenType, normal, start_block, end_block, statement_end, Token, token, parse_token,
}
use bit_link.Config.Lexer.Words.{IsToken, IsFollow, parse_token-append}
use bit_link.Config.Parser.{
  State, continues, accepts, rejects, parse_round, Parsed, valid, invalid, parse_loop, is_normal,
  listen_flag, add_token, may_precede_normal, may_precede_end, on_normal, on_start_block,
  on_end_block, close_block,
}
use bit_link.Config.Parser.Fuel.{run, run-continues, parse_loop_fuel}
use bit_link.Config.Parser.Build.{append, add_statement-append, push_token-append, set_child-append}

abbrev pub at : NginxConfig → List NginxConfig → TokenType → Bool → State
at top outer last e = record {
  top = top;
  outer = outer;
  last_token_type = last;
  expect_listen_arg = e;
}

-- The flag of `listen` before and after some tokens.
abbrev pub Flags : Bool → List Bytes → Bool → Type 0
Flags e [] e' = e ≡ e'
Flags e (t ∷ ts) e' = (f : Bool) × (listen_flag e t ≡ some f) × Flags f ts e'

-- One round, on a token that is known.
pub run-token :
    (s s' : State) (input rest value : Bytes) (kind : TokenType)
    → parse_token input ≡ token kind value rest
    → parse_round kind value s ≡ continues s'
    → run s input ≡ run s' rest
run-token s s' input rest value kind read goes =
    run-continues s s' input (rw read goes) ∙ ap (λ (t : Token). run s' t.rest) read

-- A round with the token at hand.
abbrev after_token : ℕ → State → Token → Parsed
after_token fuel s t = elim (parse_round t.kind t.value s) [
  | continues s' ↦ parse_loop fuel s' t.rest
  | accepts config ↦ valid config
  | rejects ↦ invalid
]

-- Input that is skipped makes no difference.
pub run_skip :
    (s : State) (input rest : Bytes)
    → parse_token input ≡ parse_token rest
    → length rest ≤ length input
    → run s input ≡ run s rest
unfolding parse_loop
run_skip s input rest same shorter =
    ap (after_token (length input) s) same
    ∙ parse_loop_fuel (suc (length input)) (suc (length rest)) s rest (omega arith) (omega arith)

pub run_blank :
    (s : State) (c : ℕ) (rest : Bytes) → (c ≡ b' ') ⊎ (c ≡ 10) → run s (c ∷ rest) ≡ run s rest
run_blank s c rest h = run_skip s (c ∷ rest) rest (unfold parse_token in ground arith) (omega arith)

pub run-indent : (n : ℕ) (s : State) (rest : Bytes) → run s (indent n ++ rest) ≡ run s rest
unfolding indent
run-indent zero s rest = refl
run-indent (suc n) s rest =
    run_blank s b' ' (b' ' ∷ (indent n ++ rest)) (inl refl)
    ∙ run_blank s b' ' (indent n ++ rest) (inl refl)
    ∙ run-indent n s rest

-- A further token of a statement.
run_more :
    (c : NginxConfig) (outer : List NginxConfig) (e f : Bool) (ts : List Bytes) (t rest : Bytes)
    → IsToken t
    → IsFollow rest
    → listen_flag e t ≡ some f
    → run (at (append c (plain ts empty)) outer normal e) (t ++ rest)
      ≡ run (at (append c (plain (ts ++ t ∷ []) empty)) outer normal f) rest
unfolding parse_round on_normal add_token listen_flag append
run_more c outer e f ts t rest h k flag =
    run-token _ _ (t ++ rest) rest t normal (parse_token-append t rest h k)
      (rw (flag, push_token-append t c ts) refl)

-- May a statement begin behind this token?
abbrev pub IsReady : TokenType → Type 0
IsReady last = (is_normal last ≡ false) × (may_precede_normal last ≡ true)

-- Its first token.
run_first :
    (c : NginxConfig) (outer : List NginxConfig) (last : TokenType) (e f : Bool) (t rest : Bytes)
    → IsReady last
    → IsToken t
    → IsFollow rest
    → listen_flag e t ≡ some f
    → run (at c outer last e) (t ++ rest)
      ≡ run (at (append c (plain (t ∷ []) empty)) outer normal f) rest
unfolding parse_round on_normal add_token listen_flag append
run_first c outer last e f t rest ready h k flag =
    run-token _ _ (t ++ rest) rest t normal (parse_token-append t rest h k)
      (rw (flag, ready.0, ready.1, add_statement-append c, push_token-append t c []) refl)

-- The tokens of a statement behind the first, each with the space in front of it.
abbrev tail_text : List Bytes → Bytes
tail_text [] = []
tail_text (t ∷ ts) = b' ' ∷ (t ++ tail_text ts)

show_tokens-cons : (t : Bytes) (ts : List Bytes) → show_tokens (t ∷ ts) ≡ t ++ tail_text ts
unfolding show_tokens
show_tokens-cons t [] = sym (append-nil t)
show_tokens-cons t (u ∷ us) = ap (λ s. t ++ b' ' ∷ s) (show_tokens-cons u us)

tail_text-IsFollow :
    (ts : List Bytes) (rest : Bytes) → IsFollow rest → IsFollow (tail_text ts ++ rest)
tail_text-IsFollow [] rest k = k
tail_text-IsFollow (t ∷ ts) rest k = inl refl

run-tail_text :
    (c : NginxConfig) (outer : List NginxConfig) (e e' : Bool) (ts us : List Bytes) (rest : Bytes)
    → All IsToken us
    → IsFollow rest
    → Flags e us e'
    → run (at (append c (plain ts empty)) outer normal e) (tail_text us ++ rest)
      ≡ run (at (append c (plain (ts ++ us) empty)) outer normal e') rest
run-tail_text c outer e e' ts [] rest h k same = rw (same, append-nil ts) refl
run-tail_text c outer e e' ts (u ∷ us) rest (h, hs) k (f, flag, flags) =
    run_blank _ b' ' ((u ++ tail_text us) ++ rest) (inl refl)
    ∙ ap (run (at (append c (plain ts empty)) outer normal e)) (append_assoc u (tail_text us) rest)
    ∙ run_more c outer e f ts u (tail_text us ++ rest) h (tail_text-IsFollow us rest k) flag
    ∙ run-tail_text c outer f e' (ts ++ u ∷ []) us rest hs k flags
    ∙ ap (λ vs. run (at (append c (plain vs empty)) outer normal e') rest)
        (append_assoc ts (u ∷ []) us)

-- The tokens of a statement, with the indentation in front of them.
pub run-show_tokens :
    (n : ℕ) (c : NginxConfig) (outer : List NginxConfig) (last : TokenType) (e e' : Bool)
    (t : Bytes) (ts : List Bytes) (rest : Bytes)
    → IsReady last
    → All IsToken (t ∷ ts)
    → IsFollow rest
    → Flags e (t ∷ ts) e'
    → run (at c outer last e) (indent n ++ (show_tokens (t ∷ ts) ++ rest))
      ≡ run (at (append c (plain (t ∷ ts) empty)) outer normal e') rest
run-show_tokens n c outer last e e' t ts rest ready (h, hs) k (f, flag, flags) =
    run-indent n (at c outer last e) (show_tokens (t ∷ ts) ++ rest)
    ∙ ap (λ s. run (at c outer last e) (s ++ rest)) (show_tokens-cons t ts)
    ∙ ap (run (at c outer last e)) (append_assoc t (tail_text ts) rest)
    ∙ run_first c outer last e f t (tail_text ts ++ rest) ready h (tail_text-IsFollow ts rest k)
        flag
    ∙ run-tail_text c outer f e' (t ∷ []) ts rest hs k flags

-- A semicolon and the end of the line.
pub run_semicolon :
    (c : NginxConfig) (outer : List NginxConfig) (e : Bool) (rest : Bytes)
    → run (at c outer normal e) (codes ";\n" ++ rest) ≡ run (at c outer statement_end e) rest
unfolding parse_round
run_semicolon c outer e rest =
    run-token _ _ (b';' ∷ 10 ∷ rest) (10 ∷ rest) (codes ";") statement_end
      (unfold parse_token in refl) refl
    ∙ run_blank _ 10 rest (inr refl)

-- The opening of a block.
pub run_open :
    (c : NginxConfig) (outer : List NginxConfig) (e : Bool) (rest : Bytes)
    → run (at c outer normal e) (codes " {\n" ++ rest)
      ≡ run (at empty (c ∷ outer) start_block e) rest
unfolding parse_round on_start_block
run_open c outer e rest =
    run_blank _ b' ' (b'{' ∷ 10 ∷ rest) (inl refl)
    ∙ run-token _ _ (b'{' ∷ 10 ∷ rest) (10 ∷ rest) (codes "{") start_block
        (unfold parse_token in refl) refl
    ∙ run_blank _ 10 rest (inr refl)

-- Its end, on a line of its own.
pub run_close :
    (n : ℕ) (child c : NginxConfig) (ts : List Bytes) (outer : List NginxConfig) (last : TokenType)
    (e : Bool) (rest : Bytes)
    → may_precede_end last ≡ true
    → run (at child (append c (plain ts empty) ∷ outer) last e) (indent n ++ (codes "}\n" ++ rest))
      ≡ run (at (append c (block ts child empty)) outer end_block e) rest
unfolding parse_round on_end_block close_block
run_close n child c ts outer last e rest may =
    run-indent n _ (codes "}\n" ++ rest)
    ∙ run-token _ (at (append c (block ts child empty)) outer end_block e) (b'}' ∷ 10 ∷ rest)
        (10 ∷ rest) (codes "}") end_block (unfold parse_token in refl)
        (rw (may, set_child-append child c ts) refl)
    ∙ run_blank _ 10 rest (inr refl)
