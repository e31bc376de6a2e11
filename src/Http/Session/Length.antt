-- ===== src/Http/Session/Length.antt =====
-- src/session.cc: the size of a request that its headers give.
use bit_link.Prelude.{
  ℕ, suc, ◌+◌, ◌<◌, ◌≡◌, refl, sym, ap, ◌∙◌, [], ◌∷◌, ◌++◌, none, some, true, leb, length, take,
  drop, length-append, append_assoc, arith,
}
use bit_link.Prelude.{◌^◌, take-append, drop-append}
use bit_link.Str.{Bytes, codes, Lacks, find, find_char, find_where, find_from, contains}
use bit_link.Str.Search.{find_char-Lacks, starts_with-append}
use bit_link.Http.Session.{complete, length_at, content_length, expected_total_size, check_size}

contains-append : (p : ℕ) (ps s t : Bytes) → contains (p ∷ ps) (s ++ (p ∷ ps ++ t)) ≡ true
unfolding find
contains-append p ps [] t = ground (arith, starts_with-append (p ∷ ps) t)
contains-append p ps (c ∷ s) t = ground (arith, contains-append p ps s t)

drop-add : (n : ℕ) (front s : Bytes) → drop (length front + n) (front ++ s) ≡ drop n s
drop-add n [] s = let same : 0 + n ≡ n = omega arith in ap (λ k. drop k s) same
drop-add n (c ∷ front) s =
    let same : suc (length front) + n ≡ suc (length front + n) = omega arith in
    ap (λ k. drop k (c ∷ front ++ s)) same ∙ drop-add n front s

abbrev separator : Bytes
separator = codes "\r\n\r\n"

length_at_zero :
    (headers : Bytes) (i j : ℕ)
    → find_from (find_char b':') headers i ≡ some j
    → find_from (find_char 10) headers (j + 1) ≡ none
    → length_at headers i ≡ some 0
unfolding length_at
length_at_zero headers i j e f = rw (e, f, length_at) refl

length_at_last :
    (front v : Bytes)
    → Lacks 10 v
    → length_at (front ++ (codes "Content-Length:" ++ v)) (length front) ≡ some 0
unfolding find_where
length_at_last front v h =
    length_at_zero (front ++ (codes "Content-Length:" ++ v)) (length front) (14 + length front)
      (colon front v) (no_newline front v h)
  where
    colon :
        (front v : Bytes)
        → find_from (find_char b':') (front ++ (codes "Content-Length:" ++ v)) (length front)
          ≡ some (14 + length front)
    colon front v = ground (
      arith,
      drop-append front (codes "Content-Length:" ++ v),
      length-append front (codes "Content-Length:" ++ v),
    )

    behind :
        (front v : Bytes)
        → drop (14 + length front + 1) (front ++ (codes "Content-Length:" ++ v)) ≡ v
    behind front v =
        ap (λ n. drop n (front ++ (codes "Content-Length:" ++ v))) (omega arith)
        ∙ drop-add 15 front (codes "Content-Length:" ++ v)

    no_newline :
        (front v : Bytes)
        → Lacks 10 v
        → find_from (find_char 10) (front ++ (codes "Content-Length:" ++ v)) (14 + length front + 1)
          ≡ none
    no_newline front v h = ground (arith, behind front v, find_char-Lacks 10 v h)

content_length_last :
    (headers : Bytes) (i : ℕ)
    → find (codes "Content-Length:") headers ≡ some i
    → length_at headers i ≡ some 0
    → content_length headers ≡ some 0
unfolding content_length
content_length_last headers i e h = rw (e, content_length) h

expected_small :
    (n : ℕ) (s : Bytes)
    → contains separator s ≡ true
    → n + 4 < 2 ^ 64
    → expected_total_size n 0 s ≡ n + 4
unfolding expected_total_size
expected_small n s e h = rw (e, expected_total_size) (omega arith)

check_size_zero :
    (headers body : Bytes)
    → content_length headers ≡ some 0
    → length headers + 4 < 2 ^ 64
    → check_size (length headers) (headers ++ (separator ++ body)) ≡ complete (headers ++ separator)
unfolding check_size
check_size_zero headers body e small =
    let all = headers ++ (separator ++ body) in
    let cut : take (length headers) all ≡ headers = take-append headers (separator ++ body) in
    let size =
      expected_small (length headers) all (contains-append 13 (codes "\n\r\n") headers body)
        small in
    let enough : leb (length headers + 4) (length all) ≡ true =
      ground (arith, length-append headers (separator ++ body)) in
    let whole : take (length headers + 4) all ≡ headers ++ separator =
      ap (λ n. take n all) (sym (length-append headers separator))
      ∙ ap (take (length (headers ++ separator))) (sym (append_assoc headers separator body))
      ∙ take-append (headers ++ separator) body in
    rw (cut, e, size, enough, whole, check_size) refl

-- Where the last header is the first Content-Length, the request is taken to be complete at the
-- end of its headers, whatever length is given and whatever body follows, for sizes within 64
-- bits.
pub check_size_last :
    (front v body : Bytes)
    → find (codes "Content-Length:") (front ++ (codes "Content-Length:" ++ v)) ≡ some (length front)
    → Lacks 10 v
    → length front + length v + 19 < 2 ^ 64
    → let headers = front ++ (codes "Content-Length:" ++ v) in
      check_size (length headers) (headers ++ (codes "\r\n\r\n" ++ body))
      ≡ complete (headers ++ codes "\r\n\r\n")
check_size_last front v body e h small =
    let headers = front ++ (codes "Content-Length:" ++ v) in
    check_size_zero headers body
      (content_length_last headers (length front) e (length_at_last front v h))
      (omega (arith, length-append front (codes "Content-Length:" ++ v)))
