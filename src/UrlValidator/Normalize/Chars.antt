-- ===== src/UrlValidator/Normalize/Chars.antt =====
-- src/utils/url_validator.cc, `normalize_url`: the bytes of its result.
use bit_link.Prelude.{
  ℕ, ◌+◌, ◌-◌, [], ◌∷◌, All, All-append, All-take, All-drop, if_both, option_both, take, drop,
}
use bit_link.Str.{
  Bytes, codes, to_lower, lower, pop_back, substr, ends_in, find_char, find_from, or_end,
  find_where, one_of, char_is, is_empty,
}
use bit_link.UrlValidator.Parts.{scheme_end?, drop_last_dot, skip_user, add_default_scheme}
use bit_link.UrlValidator.Normalize.{
  normalize_url, ensure_path, remove_default_port, lower_scheme_and_domain, normalize_host,
  remove_fragment, after_scheme, behind_at,
}

module _ (P : ℕ → Type 0) (low : (c : ℕ) → P c → P (to_lower c)) where
  All-lower : (s : Bytes) → All P s → All P (lower s)
  unfolding lower
  All-lower [] h = tt
  All-lower (c ∷ s) (p, h) = (low c p, All-lower s h)

  All-pop_back : (s : Bytes) → All P s → All P (pop_back s)
  All-pop_back [] h = tt
  All-pop_back (c ∷ []) h = tt
  All-pop_back (c ∷ d ∷ s) (p, h) = (p, All-pop_back (d ∷ s) h)

  All-substr : (s : Bytes) (pos n : ℕ) → All P s → All P (substr s pos n)
  All-substr s pos n h = All-take P n (drop pos s) (All-drop P pos s h)

  All-drop_last_dot : (s : Bytes) → All P s → All P (drop_last_dot s)
  unfolding drop_last_dot
  All-drop_last_dot s h = if_both (All P) (ends_in b'.' s) (All-pop_back s h) h

  All-remove_fragment : (s : Bytes) → All P s → All P (remove_fragment s)
  unfolding remove_fragment
  All-remove_fragment s h = option_both (All P) (find_char b'#' s) h (λ i. All-take P i s h)

  module _ (slash : P b'/') (colon : P b':') (left : P b'[') (right : P b']') where
    All-normalize_host : (s : Bytes) → All P s → All P (normalize_host s)
    unfolding normalize_host
    All-normalize_host s h =
        if_both (All P) (char_is b'[' s 0)
          (option_both (All P) (find_char b']' s) h (λ e. (
            left,
            All-append P (lower (substr s 1 (e - 1))) (b']' ∷ drop (e + 1) s)
                (All-lower _ (All-substr s 1 (e - 1) h)) (right, All-drop P (e + 1) s h),
          )))
          (All-drop_last_dot _ (All-lower s h))

    All-lower_scheme_and_domain : (s : Bytes) → All P s → All P (lower_scheme_and_domain s)
    unfolding lower_scheme_and_domain
    All-lower_scheme_and_domain s h = option_both (All P) (scheme_end? s) h (λ e.
        let start = skip_user (codes "/") s (e + 3) in
        let end = or_end s (find_from (find_where (one_of (codes ":/?"))) s start) in
        All-append P (lower (take e s)) _ (All-lower _ (All-take P e s h)) (
          colon,
          (
            slash,
            (
              slash,
              All-append P (substr s (e + 3) (start - e - 3)) _
                  (All-substr s (e + 3) (start - e - 3) h)
                  (All-append P (normalize_host (substr s start (end - start))) _
                    (All-normalize_host _ (All-substr s start (end - start) h))
                    (All-drop P end s h)),
            ),
          ),
        ))

    All-remove_default_port : (s : Bytes) → All P s → All P (remove_default_port s)
    unfolding remove_default_port
    All-remove_default_port s h = option_both (All P) (scheme_end? s) h (λ e.
        option_both (All P) (find_from (find_char b':') s (behind_at s (e + 3))) h (λ port_start.
          if_both (All P) _
            (All-append P (take port_start s) _ (All-take P port_start s h) (
              All-drop P (or_end s (find_from (find_where (one_of (codes "/?#"))) s port_start)) s
                h))
            h))

    All-ensure_path : (s : Bytes) → All P s → All P (ensure_path s)
    unfolding ensure_path
    All-ensure_path s h =
        option_both (All P) (find_from (find_char b'/') s (after_scheme s))
          (option_both (All P) (find_char b'?' s) (All-append P s (codes "/") h (slash, tt))
            (λ q. All-append P (take q s) _ (All-take P q s h) (slash, All-drop P q s h)))
          (λ _. h)

    -- A property of bytes that lower case keeps, and that the marks "/:[]" have, passes from the
    -- bytes of a URL to those of its normal form.
    pub All-normalize_url : (url : Bytes) → All P url → All P (normalize_url url)
    unfolding normalize_url
    All-normalize_url url h =
        All-ensure_path _
          (All-remove_default_port _ (All-lower_scheme_and_domain _ (All-remove_fragment url h)))

    pub All-add_default_scheme :
        (url : Bytes) → All P (codes "https://") → All P url → All P (add_default_scheme url)
    unfolding add_default_scheme
    All-add_default_scheme url scheme h = if_both (All P) (is_empty url) h (
        option_both (All P) (scheme_end? url) (All-append P (codes "https://") url scheme h)
          (λ _. h))
