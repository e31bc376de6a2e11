-- ===== src/UrlValidator/Normalize/Ports.antt =====
-- src/utils/url_validator.cc: what `remove_default_port` takes away.
use bit_link.Prelude.{
  ℕ, ◌+◌, ◌-◌, ◌≡◌, ◌≢◌, refl, [], ◌++◌, some, true, All-append, take, drop, length, arith,
  length-append, take-append, drop-append, append-nil, drop-suc-append, drop_all,
}
use bit_link.Str.{
  Bytes, codes, Lacks, find, find_char, find_where, find_from, lower, substr, str_eq, one_of,
  or_end,
}
use native.Mathlib.Numerals.{add-one}
use bit_link.Str.Search.{find_char-append, find_char-Lacks}
use bit_link.UrlValidator.Parts.{scheme_end?}
use bit_link.UrlValidator.Normalize.{remove_default_port, is_default_port, behind_at}

scheme_at_four : (s : Bytes) → scheme_end? (codes "http://" ++ s) ≡ some 4
unfolding find
scheme_at_four s = refl

no_at_sign : (t : Bytes) → Lacks b'@' t → behind_at (codes "http://" ++ (t ++ codes ":80")) 7 ≡ 7
unfolding behind_at
no_at_sign t h = ground (
  arith,
  find_char-Lacks b'@' (t ++ codes ":80")
      (All-append (λ (c : ℕ). c ≢ b'@') t (codes ":80") h (omega arith)),
)

port_colon :
    (t : Bytes)
    → Lacks b':' t
    → find_from (find_char b':') (codes "http://" ++ (t ++ codes ":80")) 7 ≡ some (length t + 7)
port_colon t h = ground (arith, find_char-append b':' t (codes "80") h)

-- The parts of a URL that ends in ":80", `w` in front of it.
port_end :
    (w : Bytes)
    → or_end
        (w ++ codes ":80")
        (find_from (find_where (one_of (codes "/?#"))) (w ++ codes ":80") (length w))
      ≡ length w + 3
unfolding find_where
port_end w = ground (arith, drop-append w (codes ":80"), length-append w (codes ":80"))

port_text :
    (w : Bytes)
    → substr (w ++ codes ":80") (length w + 1) (length w + 3 - length w - 1) ≡ codes "80"
port_text w =
    let two : length w + 3 - length w - 1 ≡ 2 = omega arith in
    rw (two, add-one, drop-suc-append b':' w (codes "80"))

drop_end : (w : Bytes) → drop (length w + 3) (w ++ codes ":80") ≡ []
drop_end w =
    drop_all (length w + 3) (w ++ codes ":80") (omega (arith, length-append w (codes ":80")))

http_80 : (t : Bytes) → is_default_port (lower (take 4 (codes "http://" ++ t))) (codes "80") ≡ true
unfolding is_default_port lower str_eq
http_80 t = refl

-- In an http URL with no '@', where the first colon behind "http://" begins a ":80" at the end of
-- the URL, that ":80" is removed, whether what stands in front of it is a host or goes on with a
-- path or a query.
pub remove_default_port_end :
    (t : Bytes)
    → Lacks b'@' t
    → Lacks b':' t
    → remove_default_port (codes "http://" ++ (t ++ codes ":80")) ≡ codes "http://" ++ t
unfolding remove_default_port
remove_default_port_end t h k =
    let w = codes "http://" ++ t in
    let at_end : length w ≡ length t + 7 = omega arith in
    ground (
      arith,
      scheme_at_four (t ++ codes ":80"),
      no_at_sign t h,
      port_colon t k,
      port_end w,
      port_text w,
      take-append w (codes ":80"),
      drop_end w,
      append-nil w,
      http_80 (t ++ codes ":80"),
      at_end,
    )
