-- ===== src/Config/Parser.antt =====
-- src/config_parser.cc: `NginxConfigParser::Parse`. The stack of pointers is a stack of the blocks
-- themselves: a block takes its place in the statement that opened it when it is closed. A parse
-- that fails gives no configuration; the source leaves the part that it has read.
pub mod Fuel
pub mod Build
pub mod Runs
use bit_link.Prelude.{
  ℕ, zero, suc, ◌+◌, ◌-◌, ◌*◌, ◌/◌, ◌%◌, ◌<◌, ◌≤◌, ◌≡◌, ◌≢◌, ◌↔◌, ◌⊎◌, inl, inr, refl, sym, ap, ◌∙◌,
  subst, List, [], ◌∷◌, ◌++◌, Option, none, some, Bool, true, false, not, ◌&&◌, ◌||◌, ltb, leb,
  ◌==◌, ==_iff, if◌then◌else◌, length, take, drop, get_elem?, All, All-append, length-append,
  append_assoc, append-nil, arith, Bool-cases, Option-cases, if_both, option_both,
}
use bit_link.Str.{Bytes, codes, str_eq, is_digit, all_bytes}
use bit_link.Config.Syntax.{NginxConfig, empty, plain, block}
use bit_link.Config.Lexer.{
  TokenType, start, normal, start_block, end_block, comment, statement_end, eof, bad, Token,
  parse_token,
}

abbrev pub is_end : NginxConfig → Bool
is_end empty = true
is_end (plain ts rest) = false
is_end (block ts child rest) = false

-- statements_.emplace_back(new NginxConfigStatement)
unfoldable pub add_statement : NginxConfig → NginxConfig
add_statement empty = plain [] empty
add_statement (plain ts rest) = plain ts (add_statement rest)
add_statement (block ts child rest) = block ts child (add_statement rest)

-- statements_.back()->tokens_.push_back(token), where there is a statement
unfoldable pub push_token : Bytes → NginxConfig → NginxConfig
push_token t empty = empty
push_token t (plain ts rest) =
    if is_end rest then plain (ts ++ t ∷ []) empty else plain ts (push_token t rest)
push_token t (block ts child rest) =
    if is_end rest then block (ts ++ t ∷ []) child empty else block ts child (push_token t rest)

-- statements_.back()->child_block_.reset(child), where there is a statement
unfoldable pub set_child : NginxConfig → NginxConfig → NginxConfig
set_child new empty = empty
set_child new (plain ts rest) =
    if is_end rest then block ts new empty else plain ts (set_child new rest)
set_child new (block ts child rest) =
    if is_end rest then block ts new empty else block ts child (set_child new rest)

-- The block that is being read and those around it, the type of the last token, and whether the
-- next one is the argument of `listen`.
pub record State : Type 0 where
  pub top : NginxConfig
  pub outer : List NginxConfig
  pub last_token_type : TokenType
  pub expect_listen_arg : Bool

-- What one round of the loop leads to.
pub data Round : Type 0 where
  continues : State → Round
  accepts : NginxConfig → Round
  rejects : Round

abbrev pub is_normal : TokenType → Bool
is_normal normal = true
is_normal _ = false

-- `listen` is followed by digits: the flag for the next token, or an error.
unfoldable pub listen_flag : Bool → Bytes → Option Bool
listen_flag true t = if all_bytes is_digit t then some false else none
listen_flag false t = some (str_eq t (codes "listen"))

unfoldable pub add_token : Bytes → State → State
add_token t s = record s {
  top = push_token t (if is_normal s.last_token_type then s.top else add_statement s.top);
  last_token_type = normal;
}

abbrev pub may_precede_normal : TokenType → Bool
may_precede_normal comment = false
may_precede_normal eof = false
may_precede_normal bad = false
may_precede_normal _ = true

abbrev pub may_precede_end : TokenType → Bool
may_precede_end statement_end = true
may_precede_end start_block = true
may_precede_end end_block = true
may_precede_end _ = false

abbrev pub may_precede_eof : TokenType → Bool
may_precede_eof statement_end = true
may_precede_eof end_block = true
may_precede_eof start = true
may_precede_eof _ = false

unfoldable pub on_normal : Bytes → State → Round
unfolding add_token
on_normal t s = elim (listen_flag s.expect_listen_arg t) [
  | none ↦ rejects
  | some flag ↦
      if may_precede_normal s.last_token_type
      then continues (add_token t (record s { expect_listen_arg = flag }))
      else rejects
]

unfoldable pub on_start_block : State → Round
on_start_block s =
    if is_normal s.last_token_type
    then continues
        (record s { top = empty; outer = s.top ∷ s.outer; last_token_type = start_block })
    else rejects

unfoldable pub close_block : State → List NginxConfig → Round
close_block s [] = rejects
close_block s (around ∷ outer) =
    continues
      (record s { top = set_child s.top around; outer = outer; last_token_type = end_block })

unfoldable pub on_end_block : State → Round
unfolding close_block
on_end_block s = if may_precede_end s.last_token_type then close_block s s.outer else rejects

abbrev pub is_outermost : List NginxConfig → Bool
is_outermost [] = true
is_outermost (c ∷ cs) = false

unfoldable pub on_eof : State → Round
on_eof s =
    if may_precede_eof s.last_token_type && is_outermost s.outer then accepts s.top else rejects

-- The body of the loop behind `ParseToken`.
unfoldable pub parse_round : TokenType → Bytes → State → Round
unfolding on_normal on_start_block on_end_block on_eof
parse_round bad t s = rejects
parse_round comment t s = continues s
parse_round start t s = rejects
parse_round normal t s = on_normal t s
parse_round statement_end t s =
    if is_normal s.last_token_type
    then continues (record s { last_token_type = statement_end })
    else rejects
parse_round start_block t s = on_start_block s
parse_round end_block t s = on_end_block s
parse_round eof t s = on_eof s

-- The result of the loop; `unfinished` says that the fuel ran out.
pub data Parsed : Type 0 where
  valid : NginxConfig → Parsed
  invalid unfinished : Parsed

unfoldable pub parse_loop : ℕ → State → Bytes → Parsed
unfolding parse_round
parse_loop zero s input = unfinished
parse_loop (suc fuel) s input =
    let t = parse_token input in
    elim (parse_round t.kind t.value s) [
      | continues s' ↦ parse_loop fuel s' t.rest
      | accepts config ↦ valid config
      | rejects ↦ invalid
    ]

abbrev pub initial : NginxConfig → State
initial config = record {
  top = config;
  outer = [];
  last_token_type = start;
  expect_listen_arg = false;
}

-- Each token but the last takes a byte at least.
unfoldable pub parse : Bytes → Parsed
parse input = parse_loop (suc (length input)) (initial empty) input
