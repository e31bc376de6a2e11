-- ===== src/Http/Request/RoundTrip.antt =====
-- src/request.cc: a request that is written and parsed.
use bit_link.Prelude.{
  ◌≡◌, ◌≢◌, refl, ap, ◌∙◌, List, [], ◌∷◌, ◌++◌, false, All, All-append, append_assoc, arith,
}
use bit_link.Str.{Bytes, codes, Lacks, is_empty, ends_in, getlines}
use bit_link.Str.Lines.{getlines-cons, is_empty-append}
use bit_link.StrMap.{StrMap, put}
use bit_link.Http.Request.{
  strip_cr, add_header, read_headers, read_body, parse_lines, parse_request,
}
use bit_link.Http.Request.Words.{
  IsBlankless, StartsPlain, strip_cr-append, add_header_lem, next_word-append, next_word_space,
  next_word_last, blankless-Lacks,
}
use bit_link.Http.Request.Body.{without_newline, read_body-getlines}

-- A header as a client sends it.
abbrev pub IsHeader : Bytes × Bytes → Type 0
IsHeader (name, v) = Lacks b':' name × Lacks 10 name × Lacks 10 v × StartsPlain v

abbrev pub write_headers : List (Bytes × Bytes) → Bytes
write_headers [] = codes "\r\n"
write_headers ((name, v) ∷ headers) =
    name ++ (codes ": " ++ (v ++ (codes "\r\n" ++ write_headers headers)))

abbrev pub put_all : StrMap Bytes → List (Bytes × Bytes) → StrMap Bytes
put_all m [] = m
put_all m ((name, v) ∷ headers) = put_all (put name v m) headers

abbrev pub write_request : Bytes → Bytes → Bytes → List (Bytes × Bytes) → Bytes → Bytes
write_request method uri version headers body =
    method
    ++ (codes " "
        ++ (uri ++ (codes " " ++ (version ++ (codes "\r\n" ++ (write_headers headers ++ body))))))

-- One header and those behind it.
read_headers_step :
    (line : Bytes) (lines : List Bytes) (m : StrMap Bytes)
    → is_empty line ≡ false
    → read_headers m ((line ++ 13 ∷ []) ∷ lines) ≡ read_headers (add_header line m) lines
unfolding read_headers
read_headers_step line lines m e =
    rw (is_empty-append line [] 13, strip_cr-append line, e, read_headers) refl

header_line :
    (name v : Bytes) → IsHeader (name, v) → Lacks 10 (name ++ (codes ": " ++ (v ++ 13 ∷ [])))
header_line name v (h, p, q, r) =
    All-append (λ c. c ≢ 10) name _ p
      (All-append (λ c. c ≢ 10) (codes ": ") _ (ground arith)
        (All-append (λ c. c ≢ 10) v _ q (ground arith)))

read_headers-write_headers :
    (m : StrMap Bytes) (headers : List (Bytes × Bytes)) (body : Bytes)
    → All IsHeader headers
    → read_headers m (getlines 10 (write_headers headers ++ body))
      ≡ (put_all m headers, getlines 10 body)
unfolding read_headers strip_cr ends_in
read_headers-write_headers m [] body h =
    ap (read_headers m) (getlines-cons 10 (13 ∷ []) body (ground arith))
read_headers-write_headers m ((name, v) ∷ headers) body (p, h) =
    let line = name ++ (codes ": " ++ v) in
    let more = write_headers headers ++ body in
    let split : write_headers ((name, v) ∷ headers) ++ body
        ≡ (name ++ (codes ": " ++ (v ++ 13 ∷ []))) ++ 10 ∷ more =
      simp append_assoc in
    let whole : name ++ (codes ": " ++ (v ++ 13 ∷ [])) ≡ line ++ 13 ∷ [] = simp append_assoc in
    ap (λ s. read_headers m (getlines 10 s)) split
    ∙ ap (read_headers m)
        (getlines-cons 10 (name ++ (codes ": " ++ (v ++ 13 ∷ []))) more (header_line name v p))
    ∙ ap (λ l. read_headers m (l ∷ getlines 10 more)) whole
    ∙ read_headers_step line (getlines 10 more) m (is_empty-append name (b' ' ∷ v) b':')
    ∙ ap (λ x. read_headers x (getlines 10 more)) (add_header_lem name v m p.0 p.3)
    ∙ read_headers-write_headers (put name v m) headers body h

parse_lines_step :
    (raw method uri version : Bytes) (lines rest : List Bytes) (hs : StrMap Bytes)
    → IsBlankless method
    → IsBlankless uri
    → IsBlankless version
    → is_empty method ≡ false
    → is_empty uri ≡ false
    → read_headers [] lines ≡ (hs, rest)
    → parse_lines raw
        (((method ++ (codes " " ++ (uri ++ (codes " " ++ version)))) ++ 13 ∷ []) ∷ lines)
      ≡ record {
        raw_request = raw;
        method = method;
        uri = uri;
        version = version;
        headers = hs;
        body = read_body rest;
      }
unfolding parse_lines
parse_lines_step raw method uri version lines rest hs m u v fm fu e =
    let line = method ++ (codes " " ++ (uri ++ (codes " " ++ version))) in
    let cut = strip_cr-append line in
    let one = next_word-append method (uri ++ (codes " " ++ version)) m fm in
    let two = next_word_space (uri ++ (codes " " ++ version)) ∙ next_word-append uri version u fu in
    let three =
      ap (λ (q : Bytes × Bytes). q.0) (next_word_space version) ∙ next_word_last version v in
    rw (cut, one, two, three, e, parse_lines) refl

request_line :
    (method uri version : Bytes)
    → IsBlankless method
    → IsBlankless uri
    → IsBlankless version
    → Lacks 10 ((method ++ (codes " " ++ (uri ++ (codes " " ++ version)))) ++ 13 ∷ [])
request_line method uri version m u v =
    let append = All-append (λ c. c ≢ 10) in
    append _ _
      (append method _ (blankless-Lacks method m) (
        append (codes " ") _ (ground arith) (
          append uri _ (blankless-Lacks uri u)
            (append (codes " ") _ (ground arith) (blankless-Lacks version v)))))
      (ground arith)

-- A request as a client writes it, with lines that end in CR LF, is parsed into its parts: the
-- method and the URI, neither empty, and the version, which have no white space, the headers, of
-- which a later one of the same name wins, and the body without a newline at its end. No header
-- name holds a colon, no header a newline, and no value begins with white space.
pub parse_request-write_request :
    (method uri version : Bytes) (headers : List (Bytes × Bytes)) (body : Bytes)
    → IsBlankless method
    → IsBlankless uri
    → IsBlankless version
    → (is_empty method ≡ false) × (is_empty uri ≡ false)
    → All IsHeader headers
    → parse_request (write_request method uri version headers body) ≡ record {
      raw_request = write_request method uri version headers body;
      method = method;
      uri = uri;
      version = version;
      headers = put_all [] headers;
      body = without_newline body;
    }
unfolding parse_request
parse_request-write_request method uri version headers body m u v full hs =
    let line = method ++ (codes " " ++ (uri ++ (codes " " ++ version))) in
    let more = write_headers headers ++ body in
    let split : write_request method uri version headers body ≡ (line ++ 13 ∷ []) ++ 10 ∷ more =
      simp append_assoc in
    let raw = write_request method uri version headers body in
    let lines =
      ap (getlines 10) split
      ∙ getlines-cons 10 (line ++ 13 ∷ []) more (request_line method uri version m u v) in
    ap (parse_lines raw) lines
    ∙ parse_lines_step raw method uri version (getlines 10 more) (getlines 10 body)
        (put_all [] headers) m u v full.0 full.1 (read_headers-write_headers [] headers body hs)
    ∙ ap
        (λ b. record {
          raw_request = raw;
          method = method;
          uri = uri;
          version = version;
          headers = put_all [] headers;
          body = b;
        })
        (read_body-getlines body)
