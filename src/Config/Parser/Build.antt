-- ===== src/Config/Parser/Build.antt =====
-- src/config_parser.cc, `Parse`: how a configuration grows at its end.
use bit_link.Prelude.{◌≡◌, refl, List, [], ◌∷◌, ◌++◌, false}
use bit_link.Str.{Bytes}
use bit_link.Config.Syntax.{NginxConfig, empty, plain, block}
use bit_link.Config.Parser.{is_end, add_statement, push_token, set_child}

-- The statements of two configurations, one after the other.
unfoldable pub append : NginxConfig → NginxConfig → NginxConfig
append empty d = d
append (plain ts rest) d = plain ts (append rest d)
append (block ts child rest) d = block ts child (append rest d)

pub append_nested : (c d e : NginxConfig) → append (append c d) e ≡ append c (append d e)
unfolding append
append_nested empty d e = refl
append_nested (plain ts rest) d e = rw (append_nested rest d e)
append_nested (block ts child rest) d e = rw (append_nested rest d e)

pub append-empty : (c : NginxConfig) → append c empty ≡ c
unfolding append
append-empty empty = refl
append-empty (plain ts rest) = rw (append-empty rest)
append-empty (block ts child rest) = rw (append-empty rest)

is_end-append : (c : NginxConfig) (ts : List Bytes) → is_end (append c (plain ts empty)) ≡ false
unfolding append
is_end-append empty ts = refl
is_end-append (plain us rest) ts = refl
is_end-append (block us child rest) ts = refl

pub add_statement-append : (c : NginxConfig) → add_statement c ≡ append c (plain [] empty)
unfolding append add_statement
add_statement-append empty = refl
add_statement-append (plain ts rest) = rw (add_statement-append rest)
add_statement-append (block ts child rest) = rw (add_statement-append rest)

pub push_token-append :
    (t : Bytes) (c : NginxConfig) (ts : List Bytes)
    → push_token t (append c (plain ts empty)) ≡ append c (plain (ts ++ t ∷ []) empty)
unfolding append push_token
push_token-append t empty ts = refl
push_token-append t (plain us rest) ts = rw (is_end-append rest ts, push_token-append t rest ts)
push_token-append t (block us child rest) ts =
    rw (is_end-append rest ts, push_token-append t rest ts)

pub set_child-append :
    (new c : NginxConfig) (ts : List Bytes)
    → set_child new (append c (plain ts empty)) ≡ append c (block ts new empty)
unfolding append set_child
set_child-append new empty ts = refl
set_child-append new (plain us rest) ts = rw (is_end-append rest ts, set_child-append new rest ts)
set_child-append new (block us child rest) ts =
    rw (is_end-append rest ts, set_child-append new rest ts)
