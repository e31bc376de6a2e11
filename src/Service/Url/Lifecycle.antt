-- ===== src/Service/Url/Lifecycle.antt =====
-- src/services/url_shortening_service.cc: what later calls do to a short link.
use bit_link.Prelude.{
  ◌≡◌, ◌≢◌, inl, inr, sym, ap, subst, ◌∙◌, Option, none, some, Bool, true, arith, Option-cases,
}
use bit_link.Str.{Bytes, Lacks}
use bit_link.Database.{Database, IsLinkTable}
use bit_link.SlugGenerator.{Generator, returns}
use bit_link.Models.{ClickRecord}
use bit_link.Service.Privacy.{truncate_ip_for_privacy}
use bit_link.Service.Url.{ShortenResult, shorten_url, resolve_code, record_access, delete_link}
use bit_link.Service.Url.Shorten.{url_of, Shortened, shorten_url-Shortened, resolve_code-stored}

module _ (db : Database) (r : Generator) (qr : Bytes → Option Bytes) (base_url : Bytes)
    (stored : Bytes → db.State → Option (Bytes × Bytes)) (Answers : Bytes → db.State → Type 0)
    (t : IsLinkTable db stored Answers) where
  open db use {State}

  -- A code that resolves is one that the table holds.
  resolve_code-some :
      (code url : Bytes) (s : State)
      → Lacks 0 code
      → resolve_code db r qr base_url code s ≡ some url
      → url_of (stored code s) ≡ some url
  unfolding resolve_code
  resolve_code-some code url s text h = elim (Option-cases (db.get_link code s)) [
    | inl e ↦ ground arith
    | inr (l, e) ↦ ap url_of (t.get_link_stored code s l text e) ∙ ground arith
  ]

  -- So it is not a free one.
  nothing_held :
      (code other url : Bytes) (s : State)
      → code ≡ other
      → stored other s ≡ none
      → url_of (stored code s) ≢ some url
  nothing_held code other url s same free held =
      let bad : ◌≡◌ {A = Option Bytes} none (some url) =
        ap url_of (sym free) ∙ ap (λ c. url_of (stored c s)) (sym same) ∙ held in
      cc

  -- A code without NUL that resolves goes on to resolve to the same URL after any further call
  -- that shortens a URL, whether that call succeeds or fails, as long as the query is answered.
  pub resolve_code-shorten_url_other :
      (code old url : Bytes) (s s' : State) (g g' : r.State) (result : ShortenResult)
      → Lacks 0 code
      → resolve_code db r qr base_url code s ≡ some old
      → shorten_url db r qr base_url url s g ≡ returns ((s', result), g')
      → Answers code s'
      → resolve_code db r qr base_url code s' ≡ some old
  resolve_code-shorten_url_other code old url s s' g g' result text was e answers =
      let (outcome, g'', e', done) =
        shorten_url-Shortened db r qr base_url stored Answers t url s g in
      let same : outcome ≡ (s', result) = ground arith in
      let held = resolve_code-some code old s text was in
      let now = resolve_code-stored db r qr base_url stored Answers t code s' text answers in
      elim (subst (Shortened db r qr base_url stored Answers t url s) same done) [
        | inr (_, others) ↦ now ∙ ap url_of (others code) ∙ held
        | inl (_, _, _, _, free, _, others) ↦
            let new : code ≢ result.code = λ c. nothing_held code result.code old s c free held in
            now ∙ ap url_of (others code new) ∙ held
      ]

  -- After a deletion that reports success the code, which holds no NUL, resolves to nothing, as
  -- long as the query is answered.
  pub resolve_code-delete_link :
      (code : Bytes) (s s' : State)
      → Lacks 0 code
      → delete_link db r qr base_url code s ≡ (s', true)
      → Answers code s'
      → resolve_code db r qr base_url code s' ≡ none
  unfolding delete_link
  resolve_code-delete_link code s s' text e answers =
      resolve_code-stored db r qr base_url stored Answers t code s' text answers
      ∙ ap url_of (t.delete_link_gone code s s' text e).1

  -- Recording an access leaves what every code stands for as it was.
  pub record_access-stored :
      (code ip_address user_agent referrer other : Bytes) (s s' : State) (ok : Bool)
      → record_access db r qr base_url code ip_address user_agent referrer s ≡ some (s', ok)
      → stored other s' ≡ stored other s
  unfolding record_access
  record_access-stored code ip_address user_agent referrer other s s' ok e =
      let click : ClickRecord = record {
        code = code;
        ip_truncated = truncate_ip_for_privacy ip_address;
        user_agent = user_agent;
        referrer = referrer;
        timestamp = db.now s;
      } in
      ground (arith, t.record_click_links click other s)
