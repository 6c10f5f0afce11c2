-- ===== src/Validate/Statsd.antt =====
-- What validate_statsd accepts.
use statsrelay.Prelude.{
  ℕ, zero, suc, ◌-◌, ◌<◌, ◌≡◌, ◌↔◌, ◌⊎◌, refl, subst, ap, ◌∙◌, sym, Bool, true, false, Option, none,
  some, List, [], ◌∷◌, ◌++◌, if◌then◌else◌, ltb, take, drop, length, arith, Option-cases, inl, inr,
  length-append, length-drop, take-append, take-append_of_le, drop-append_of_le,
}
use statsrelay.Outcome.{done}
use statsrelay.Bytes.{memchr, c_str}
use statsrelay.Bytes.Search.{
  Lacks, memchr-append, memchr-Lacks, Lacks-memchr, memchr-split, memchr-lt,
}
use statsrelay.Validate.{Strtod, search, is_stat_type, check_rate, check_type}

-- The bytes of a copy that strndup made of a line without NUL.
abbrev pub copy : List ℕ → List ℕ
copy xs = xs ++ 0 ∷ []

pub search-copy :
    (needle : ℕ) (xs : List ℕ) → search needle (length xs) (copy xs) ≡ done (memchr needle xs)
unfolding search
search-copy needle xs =
    let whole : take (length xs) (copy xs) ≡ xs = take-append (length xs) xs (0 ∷ []) refl in
    let inside : ltb (length (copy xs)) (length xs) ≡ false =
      ground (arith, length-append xs (0 ∷ [])) in
    elim (Option-cases (memchr needle xs)) [
      | inl e ↦ rw (whole, e, inside, search)
      | inr (i, e) ↦ rw (whole, e, search)
    ]

pub c_str-copy : (xs : List ℕ) → Lacks 0 xs → c_str (copy xs) ≡ xs
unfolding c_str
c_str-copy [] h = refl
c_str-copy (x ∷ xs) h = ground (arith, c_str-copy xs h.1)

pub c_str-Lacks : (xs : List ℕ) → Lacks 0 xs → c_str xs ≡ xs
unfolding c_str
c_str-Lacks [] h = refl
c_str-Lacks (x ∷ xs) h = ground (arith, c_str-Lacks xs h.1)

pub Lacks-drop : (c n : ℕ) (xs : List ℕ) → Lacks c xs → Lacks c (drop n xs)
Lacks-drop c zero xs h = h
Lacks-drop c (suc n) [] h = h
Lacks-drop c (suc n) (x ∷ xs) h = Lacks-drop c n xs h.1

-- A sample rate: `@` and a number.
pub record IsRate (strtod : Strtod) (bytes : List ℕ) : Type 0 where
  rate : List ℕ
  cut : bytes ≡ b'@' ∷ rate
  some_bytes : 0 < length rate
  number : strtod rate ≡ true

rate_accepted :
    (strtod : Strtod) (rate : List ℕ)
    → Lacks 0 rate
    → 0 < length rate
    → strtod rate ≡ true
    → check_rate strtod (suc (length (b'@' ∷ rate))) (copy (b'@' ∷ rate)) ≡ 0
unfolding check_rate
rate_accepted strtod rate h pos good = ground (arith, c_str-copy rate h)

check_rate_iff :
    (strtod : Strtod) (bytes : List ℕ)
    → Lacks 0 bytes
    → (check_rate strtod (suc (length bytes)) (copy bytes) ≡ 0) ↔ IsRate strtod bytes
check_rate_iff strtod [] h =
    (λ e. absurd (unfold check_rate in ground arith), λ r. absurd (cc r.cut))
check_rate_iff strtod (x ∷ rate) h = (
  λ e.
      unfold check_rate in
      record {
        rate = rate;
        cut = ap (λ y. y ∷ rate) (ground arith);
        some_bytes = ground arith;
        number = ground (arith, c_str-copy rate h.1);
      },
  λ r.
      subst (λ z. check_rate strtod (suc (length z)) (copy z) ≡ 0) (sym r.cut)
        (rate_accepted strtod r.rate (subst (Lacks 0) r.cut h).1 r.some_bytes r.number),
)

-- A type that a sample rate follows.
pub record IsRated (strtod : Strtod) (bytes : List ℕ) : Type 0 where
  kind : List ℕ
  rest : List ℕ
  cut : bytes ≡ kind ++ b'|' ∷ rest
  plain : Lacks b'|' kind
  typed : is_stat_type kind ≡ true
  rated : IsRate strtod rest

-- What stands behind the first bar.
unfoldable pub IsTyped : Strtod → List ℕ → Type 0
IsTyped strtod bytes = (Lacks b'|' bytes × (is_stat_type bytes ≡ true)) ⊎ IsRated strtod bytes

type_alone :
    (strtod : Strtod) (bytes : List ℕ)
    → check_type strtod (length bytes) (copy bytes) none ≡ (if is_stat_type bytes then 0 else 1)
unfolding check_type
type_alone strtod bytes =
    ap (λ l. if is_stat_type l then 0 else 1) (take-append (length bytes) bytes (0 ∷ []) refl)

type_rated :
    (strtod : Strtod) (bytes : List ℕ) (bar : ℕ)
    → bar < length bytes
    → check_type strtod (length bytes) (copy bytes) (some bar) ≡ (
        if is_stat_type (take bar bytes)
        then check_rate strtod (suc (length (drop (suc bar) bytes))) (copy (drop (suc bar) bytes))
        else 1)
unfolding check_type
type_rated strtod bytes bar inside =
    let front : take bar (copy bytes) ≡ take bar bytes =
      take-append_of_le bar bytes (0 ∷ []) (omega arith) in
    let back : drop (suc bar) (copy bytes) ≡ copy (drop (suc bar) bytes) =
      drop-append_of_le (suc bar) bytes (0 ∷ []) (omega arith) in
    let left : length bytes - bar ≡ suc (length (drop (suc bar) bytes)) =
      omega (arith, length-drop (suc bar) bytes) in
    rw (front, back, left) refl

pub accepted_if : {b : Bool} {code : ℕ} → (if b then code else 1) ≡ 0 → (b ≡ true) × (code ≡ 0)
accepted_if {b} {code} e = ground arith

pub drop_behind : (c : ℕ) (xs ys : List ℕ) → drop (suc (length xs)) (xs ++ c ∷ ys) ≡ ys
drop_behind c [] ys = refl
drop_behind c (x ∷ xs) ys = drop_behind c xs ys

pub check_type_code :
    (strtod : Strtod) (plen : ℕ) (bytes : List ℕ) (second : Option ℕ)
    → (check_type strtod plen bytes second ≡ 0) ⊎ (check_type strtod plen bytes second ≡ 1)
unfolding check_type check_rate
check_type_code strtod plen bytes none = ground arith
check_type_code strtod plen bytes (some bar) = ground arith

pub check_type_iff :
    (strtod : Strtod) (bytes : List ℕ)
    → Lacks 0 bytes
    → (check_type strtod (length bytes) (copy bytes) (memchr b'|' bytes) ≡ 0) ↔ IsTyped strtod bytes
unfolding IsTyped
check_type_iff strtod bytes h = (accepts, accepted)
  where
    accepts :
        check_type strtod (length bytes) (copy bytes) (memchr b'|' bytes) ≡ 0 → IsTyped strtod bytes
    accepts e = elim (Option-cases (memchr b'|' bytes)) [
      | inl alone ↦
          let (typed, _) = accepted_if (sym (type_alone strtod bytes) ∙ rw alone at e) in
          inl (Lacks-memchr b'|' bytes alone, typed)
      | inr (bar, found) ↦
          let (typed, rated) =
            accepted_if (
              sym (type_rated strtod bytes bar (memchr-lt b'|' bytes bar found)) ∙ rw found at e) in
          let (cut, plain) = memchr-split b'|' bytes bar found in
          inr (record {
            kind = take bar bytes;
            rest = drop (suc bar) bytes;
            cut = cut;
            plain = plain;
            typed = typed;
            rated =
                (check_rate_iff strtod (drop (suc bar) bytes) (Lacks-drop 0 (suc bar) bytes h)).0
                  rated;
          })
    ]

    accepted :
        IsTyped strtod bytes → check_type strtod (length bytes) (copy bytes) (memchr b'|' bytes) ≡ 0
    accepted (inl (plain, typed)) = rw (memchr-Lacks b'|' bytes plain, type_alone, typed) refl
    accepted (inr r) =
        let found : memchr b'|' bytes ≡ some (length r.kind) =
          ap (memchr b'|') r.cut ∙ memchr-append b'|' r.kind r.rest r.plain in
        let kind : take (length r.kind) bytes ≡ r.kind =
          ap (take (length r.kind)) r.cut
          ∙ take-append (length r.kind) r.kind (b'|' ∷ r.rest) refl in
        let rest : drop (suc (length r.kind)) bytes ≡ r.rest =
          ap (drop (suc (length r.kind))) r.cut ∙ drop_behind b'|' r.kind r.rest in
        let inside = memchr-lt b'|' bytes (length r.kind) found in
        let good =
          (check_rate_iff strtod r.rest
              (subst (Lacks 0) rest (Lacks-drop 0 (suc (length r.kind)) bytes h))).1
            r.rated in
        rw (found, type_rated strtod bytes (length r.kind) inside, kind, rest, r.typed) good
