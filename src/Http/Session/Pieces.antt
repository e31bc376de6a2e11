-- ===== src/Http/Session/Pieces.antt =====
-- src/session.cc: requests that arrive in pieces.
use bit_link.Prelude.{
  ◌≡◌, ◌⊎◌, inl, inr, refl, sym, ap, ◌∙◌, List, [], ◌∷◌, ◌++◌, some, Bool, true, false,
  if◌then◌else◌, append_assoc, append-nil, if_both, option_both,
}
use bit_link.Str.{Bytes}
use bit_link.StrMap.{StrMap}
use bit_link.Dispatch.Registry.{Factory}
use bit_link.Dispatch.Dispatcher.{Registration}
use bit_link.Http.Request.{Request}
use bit_link.Http.Response.{Response}
use bit_link.Http.Session.{
  Action, reads, writes, deletes, throws, Progress, incomplete, complete, failed, find_header_end,
  has_bad_first_line, check_size, process, handle_read, handle_data,
}

abbrev pub is_reads : Action → Bool
is_reads reads = true
is_reads (writes s) = false
is_reads deletes = false
is_reads throws = false

abbrev pub concat : List Bytes → Bytes
concat [] = []
concat (c ∷ cs) = c ++ concat cs

module _ (registrations : StrMap Registration)
    (registry : StrMap (Factory (Request → Response))) where
  abbrev IsKept : Bytes → Bytes × Action → Type 0
  IsKept s q = (is_reads q.1 ≡ false) ⊎ (q ≡ (s, reads))

  process-IsKept : (s : Bytes) (p : Progress) → IsKept s (process registrations registry s p)
  unfolding process
  process-IsKept s incomplete = inr refl
  process-IsKept s failed = inl refl
  process-IsKept s (complete request) = inl refl

  handle_read-IsKept :
      (c d : Bytes) → IsKept (d ++ c) (handle_read registrations registry (some c) d)
  unfolding handle_read handle_data
  handle_read-IsKept c d = option_both (IsKept (d ++ c)) (find_header_end (d ++ c)) (inr refl) (λ i.
      if_both (IsKept (d ++ c)) (has_bad_first_line (d ++ c)) (inl refl)
        (process-IsKept (d ++ c) (check_size i (d ++ c))))

  handle_read-append :
      (c e d : Bytes)
      → handle_read registrations registry (some e) (d ++ c)
        ≡ handle_read registrations registry (some (c ++ e)) d
  unfolding handle_read
  handle_read-append c e d = ap (handle_data registrations registry) (append_assoc d c e)

  -- The pieces that arrive one after another, up to the first that asks for something else than
  -- more of them.
  unfoldable pub read_all : Bytes → List Bytes → Bytes × Action
  read_all d [] = (d, reads)
  read_all d (c ∷ cs) =
      let q = handle_read registrations registry (some c) d in
      let more = read_all q.0 cs in if is_reads q.1 then more else q

  abbrev pub IsWhole : Bytes → List Bytes → Type 0
  IsWhole d cs =
      (ds : List Bytes) × (es : List Bytes) × (cs ≡ ds ++ es)
      × (read_all d cs ≡ handle_read registrations registry (some (concat ds)) d)
      × ((es ≡ []) ⊎ (is_reads (read_all d cs).1 ≡ false))

  read_all_stop :
      (d c : Bytes) (cs : List Bytes)
      → is_reads (handle_read registrations registry (some c) d).1 ≡ false
      → read_all d (c ∷ cs) ≡ handle_read registrations registry (some c) d
  unfolding read_all
  read_all_stop d c cs f = rw (f, read_all) refl

  read_all_more :
      (d c : Bytes) (cs : List Bytes)
      → handle_read registrations registry (some c) d ≡ (d ++ c, reads)
      → read_all d (c ∷ cs) ≡ read_all (d ++ c) cs
  unfolding read_all
  read_all_more d c cs e = rw (e, read_all) refl

  IsWhole-stop :
      (d c : Bytes) (cs : List Bytes)
      → is_reads (handle_read registrations registry (some c) d).1 ≡ false
      → IsWhole d (c ∷ cs)
  IsWhole-stop d c cs stops =
      let same = read_all_stop d c cs stops in
      (
        c ∷ [],
        cs,
        refl,
        same ∙ ap (λ s. handle_read registrations registry (some s) d) (sym (append-nil c)),
        inr (rw same stops),
      )

  IsWhole-more :
      (d c c' : Bytes) (cs : List Bytes)
      → handle_read registrations registry (some c) d ≡ (d ++ c, reads)
      → IsWhole (d ++ c) (c' ∷ cs)
      → IsWhole d (c ∷ c' ∷ cs)
  IsWhole-more d c c' cs e (ds, es, split, same, rest) = (
    c ∷ ds,
    es,
    ap (λ x. c ∷ x) split,
    read_all_more d c (c' ∷ cs) e ∙ same ∙ handle_read-append c (concat ds) d,
    rw (read_all_more d c (c' ∷ cs) e) rest,
  )

  -- However the bytes of a connection arrive in pieces, what is done is what would be done if some
  -- of the first pieces had arrived at once; pieces behind these are left only where no more data
  -- was asked for.
  pub read_all-IsWhole : (d c : Bytes) (cs : List Bytes) → IsWhole d (c ∷ cs)
  unfolding read_all
  read_all-IsWhole d c [] = elim (handle_read-IsKept c d) [
    | inl stops ↦ IsWhole-stop d c [] stops
    | inr more ↦ (
      c ∷ [],
      [],
      refl,
      read_all_more d c [] more
          ∙ sym more
          ∙ ap (λ s. handle_read registrations registry (some s) d) (sym (append-nil c)),
      inl refl,
    )
  ]
  read_all-IsWhole d c (c' ∷ cs) =
      let rest = read_all-IsWhole (d ++ c) c' cs in
      elim (handle_read-IsKept c d) [
        | inl stops ↦ IsWhole-stop d c (c' ∷ cs) stops
        | inr more ↦ IsWhole-more d c c' cs more rest
      ]
