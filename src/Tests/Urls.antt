-- ===== src/Tests/Urls.antt =====
-- URLs and addresses at concrete inputs.
use bit_link.Prelude.{ℕ, ◌<◌, ◌≡◌, ap, arith}
use bit_link.Str.{codes, to_lower}
use bit_link.UrlValidator.Normalize.{remove_default_port}
use bit_link.UrlValidator.Normalize.Ports.{remove_default_port_end}
use bit_link.UrlValidator.Validate.{validate_and_normalize}
use bit_link.UrlValidator.Validate.Laws.{IsAccepted, validate_and_normalize-IsAccepted}
use bit_link.Tests.Codes.{validate_run}

validate_and_normalize-IsAccepted_example :
    IsAccepted (codes "x.org") (validate_and_normalize (codes "x.org")).normalized_url
validate_and_normalize-IsAccepted_example =
    validate_and_normalize-IsAccepted (codes "x.org") (ap (λ v. v.is_valid) validate_run)

-- A path that ends in ":80" loses it.
remove_default_port_end_example :
    remove_default_port (codes "http://x.org/a:80") ≡ codes "http://x.org/a"
remove_default_port_end_example =
    remove_default_port_end (codes "x.org/a") (omega arith) (omega arith)

to_lower-lt : (c : ℕ) → c < 128 → to_lower c < 128
unfolding to_lower
to_lower-lt c h = ground arith
