-- ===== src/Examples/Validators.antt =====
-- Theorems on validation at concrete lines.
use statsrelay.Prelude.{ℕ, ◌≡◌, refl, ◌↔◌, ◌⊎◌, true, false, ◌&&◌, List, [], ◌∷◌, leb, arith}
use statsrelay.Outcome.{done}
use statsrelay.Bytes.{c_str, memchr}
use statsrelay.Validate.{Strtod, validate_carbon, validate_statsd, check_value, search}
use statsrelay.Validate.Carbon.{occurrences, validate_carbon_iff}
use statsrelay.Validate.Lines.{IsStatsd, validate_statsd-cases}
use statsrelay.Bytes.Search.{Lacks}

-- Converts what starts with a digit.
abbrev digits : Strtod
digits [] = false
digits (x ∷ xs) = leb b'0' x && leb x b'9'

-- `a:1|c|@2`
abbrev sampled : List ℕ
sampled = b'a' ∷ b':' ∷ b'1' ∷ b'|' ∷ b'c' ∷ b'|' ∷ b'@' ∷ b'2' ∷ []

sampled-Lacks : Lacks 0 sampled
sampled-Lacks = ground arith

validate_statsd-cases_example :
    ((validate_statsd digits true sampled ≡ done 0) × IsStatsd digits sampled)
    ⊎ ((validate_statsd digits true sampled ≡ done 1) × ¬ IsStatsd digits sampled)
validate_statsd-cases_example = validate_statsd-cases digits sampled sampled-Lacks

sampled_accepted : validate_statsd digits true sampled ≡ done 0
unfolding validate_statsd c_str memchr check_value search
sampled_accepted = refl

-- `a 1 2`
abbrev point : List ℕ
point = b'a' ∷ b' ' ∷ b'1' ∷ b' ' ∷ b'2' ∷ []

validate_carbon_iff_example : (validate_carbon point ≡ 0) ↔ (occurrences b' ' point ≡ 2)
validate_carbon_iff_example = validate_carbon_iff point
