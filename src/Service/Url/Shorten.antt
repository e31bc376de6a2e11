-- ===== src/Service/Url/Shorten.antt =====
-- src/services/url_shortening_service.cc: `shorten_url` and `resolve_code`.
use bit_link.Prelude.{
  ◌≡◌, ◌≢◌, ◌⊎◌, inl, inr, refl, ap, subst, ◌∙◌, [], ◌∷◌, Option, none, some, Bool, true, false,
  if◌then◌else◌, All, length, arith, Bool-cases, Option-cases,
}
use bit_link.Str.{Bytes, codes, is_empty, str_eq, Lacks}
use bit_link.Database.{Database, IsLinkTable}
use bit_link.SlugGenerator.{Generator, returns}
use bit_link.SlugGenerator.Codes.{IsAlnum}
use bit_link.SlugGenerator.Unique.{IsChosen, generate_unique_code-IsChosen}
use bit_link.UrlValidator.Validate.{validate_and_normalize}
use bit_link.UrlValidator.Validate.Chars.{IsUrlChar}
use bit_link.UrlValidator.Validate.Laws.{validate_and_normalize-IsAccepted, IsPlain}
use bit_link.Service.Url.{ShortenResult, failure, created, store_url, shorten_url, resolve_code}

pub alnum-Lacks : (s : Bytes) → All IsAlnum s → Lacks 0 s
alnum-Lacks [] h = tt
alnum-Lacks (c ∷ s) (p, h) = (ground arith, alnum-Lacks s h)

plain-Lacks : (s : Bytes) → All (λ c. IsUrlChar c × IsPlain c) s → Lacks 0 s
plain-Lacks [] h = tt
plain-Lacks (c ∷ s) ((_, p), h) = (ground arith, plain-Lacks s h)

-- The URL among what a code may hold.
abbrev pub url_of : Option (Bytes × Bytes) → Option Bytes
url_of none = none
url_of (some (destination, kind)) = if str_eq kind (codes "url") then some destination else none

module _ (db : Database) (r : Generator) (qr : Bytes → Option Bytes) (base_url : Bytes)
    (stored : Bytes → db.State → Option (Bytes × Bytes)) (Answers : Bytes → db.State → Type 0)
    (t : IsLinkTable db stored Answers) where
  open db use {State}

  -- What one call leaves behind: a new code of 8 letters and digits with the normalized URL under
  -- it and every other code as it was, or an error message's failure with every code as it was.
  abbrev pub Shortened : Bytes → State → State × ShortenResult → Type 0
  Shortened url s (s', result) =
      (result ≡ created db r qr base_url result.code)
        × ((validate_and_normalize url).is_valid ≡ true)
        × (length result.code ≡ 8)
        × All IsAlnum result.code
        × (stored result.code s ≡ none)
        × (stored result.code s' ≡ some ((validate_and_normalize url).normalized_url, codes "url"))
        × ((j : Bytes) → j ≢ result.code → stored j s' ≡ stored j s)
      ⊎ (result.success ≡ false) × ((j : Bytes) → stored j s' ≡ stored j s)

  insert_step :
      (url code : Bytes) (s : State) (q : State × Bool)
      → (validate_and_normalize url).is_valid ≡ true
      → db.insert_link code (validate_and_normalize url).normalized_url (codes "url") s ≡ q
      → length code ≡ 8
      → All IsAlnum code
      → Shortened url s (
          if q.1
          then (q.0, created db r qr base_url code)
          else (q.0, failure (codes "Failed to store shortened URL")))
  insert_step url code s (s', true) valid e long alnum =
      let text = alnum-Lacks code alnum in
      let normal = (validate_and_normalize url).normalized_url in
      let (free, new) =
        t.insert_link_new code normal (codes "url") s s' text
          (plain-Lacks normal (validate_and_normalize-IsAccepted url valid).plain) (omega arith)
          e in
      inl (
        refl,
        valid,
        long,
        alnum,
        free,
        new,
        λ j ne. t.insert_link_others code normal (codes "url") j s s' text ne e,
      )
  insert_step url code s (s', false) valid e long alnum =
      inr (refl, λ j. t.insert_link_failed code _ (codes "url") j s s' e)

  not_empty : (code : Bytes) → length code ≡ 8 → is_empty code ≡ false
  not_empty [] h = absurd (omega arith)
  not_empty (c ∷ s) h = refl

  store_url-Shortened :
      (url code : Bytes) (s : State) (g : r.State)
      → (validate_and_normalize url).is_valid ≡ true
      → IsChosen r db 100 8 s g code
      → Shortened url s
          (store_url db r qr base_url (validate_and_normalize url).normalized_url code s)
  unfolding store_url
  store_url-Shortened url code s g valid (inl (_, long, alnum)) =
      rw (not_empty code long) (insert_step url code s _ valid refl long alnum)
  store_url-Shortened url code s g valid (inr (none_free, _)) = rw none_free (inr (refl, λ j. refl))

  -- Shortening a URL never throws. It succeeds only for an accepted URL, and then stores its
  -- normal form of kind "url" under a code of 8 letters and digits that was free, leaves every
  -- other code alone, and returns the code with the short URL made of it; where it fails, every
  -- code keeps what it had.
  pub shorten_url-Shortened :
      (url : Bytes) (s : State) (g : r.State)
      → (outcome : State × ShortenResult) × (g' : r.State) × (shorten_url db r qr base_url url s g
          ≡ returns (outcome, g'))
        × Shortened url s outcome
  unfolding shorten_url
  shorten_url-Shortened url s g = elim (Bool-cases (validate_and_normalize url).is_valid) [
    | inr bad ↦ (
      (s, failure (validate_and_normalize url).error_message),
      g,
      ground arith,
      inr (refl, λ j. refl),
    )
    | inl valid ↦
        let (code, g', made, chosen) =
          generate_unique_code-IsChosen r db 8 100 s g (omega arith) (omega arith) in
        (
          store_url db r qr base_url (validate_and_normalize url).normalized_url code s,
          g',
          rw (valid, made),
          store_url-Shortened url code s g valid chosen,
        )
  ]

  -- Resolving a code without NUL gives the destination that the table holds under it with the kind
  -- "url", and nothing for a file or a free code, as long as the query is answered.
  pub resolve_code-stored :
      (code : Bytes) (s : State)
      → Lacks 0 code
      → Answers code s
      → resolve_code db r qr base_url code s ≡ url_of (stored code s)
  unfolding resolve_code
  resolve_code-stored code s text answers = elim (Option-cases (db.get_link code s)) [
    | inl e ↦ rw (t.get_link_missing code s text answers e) (rw (e, resolve_code))
    | inr (l, e) ↦ rw (t.get_link_stored code s l text e) (rw (e, resolve_code))
  ]

  -- The code of a call that succeeded resolves to the normal form of the URL, as long as the query
  -- is answered.
  pub resolve_code-shorten_url :
      (url : Bytes) (s s' : State) (g g' : r.State) (result : ShortenResult)
      → shorten_url db r qr base_url url s g ≡ returns ((s', result), g')
      → result.success ≡ true
      → Answers result.code s'
      → resolve_code db r qr base_url result.code s'
        ≡ some (validate_and_normalize url).normalized_url
  resolve_code-shorten_url url s s' g g' result e won answers =
      let (outcome, g'', e', done) = shorten_url-Shortened url s g in
      let same : outcome ≡ (s', result) = ground arith in
      elim (subst (Shortened url s) same done) [
        | inr (lost, _) ↦ cc
        | inl (_, _, _, alnum, _, new, _) ↦
            resolve_code-stored result.code s' (alnum-Lacks result.code alnum) answers
            ∙ ap url_of new
            ∙ unfold str_eq in refl
      ]
