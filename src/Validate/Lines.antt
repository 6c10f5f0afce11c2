-- ===== src/Validate/Lines.antt =====
-- The lines that validate_statsd accepts.
use statsrelay.Prelude.{
  ℕ, suc, ◌-◌, ◌<◌, ◌≡◌, ◌↔◌, ◌⊎◌, refl, subst, ap, ap₂, ◌∙◌, sym, true, false, none, some, List,
  [], ◌∷◌, ◌++◌, if◌then◌else◌, ltb, take, drop, length, arith, Bool-cases, Option-cases, inl, inr,
  length-drop, length-take, drop-append_of_le,
}
use statsrelay.Outcome.{done}
use statsrelay.Bytes.{memchr, c_str}
use statsrelay.Bytes.Search.{Lacks, memchr-append, memchr-split, memchr-lt}
use statsrelay.Validate.{Strtod, check_type, check_value, validate_statsd}
use statsrelay.Validate.Statsd.{
  copy, search-copy, c_str-copy, c_str-Lacks, Lacks-drop, drop_behind, accepted_if, IsTyped,
  check_type_iff, check_type_code,
}

-- A value, a bar, and what may follow it.
pub record IsValued (strtod : Strtod) (bytes : List ℕ) : Type 0 where
  pub value : List ℕ
  pub rest : List ℕ
  pub cut : bytes ≡ value ++ b'|' ∷ rest
  pub plain : Lacks b'|' value
  pub number : strtod bytes ≡ true
  pub typed : IsTyped strtod rest

-- A key, a colon and a value.
pub record IsStatsd (strtod : Strtod) (line : List ℕ) : Type 0 where
  pub key : List ℕ
  pub rest : List ℕ
  pub cut : line ≡ key ++ b':' ∷ rest
  pub plain : Lacks b':' key
  pub some_bytes : 0 < length key
  pub valued : IsValued strtod rest

type_code : Strtod → List ℕ → ℕ
type_code strtod bytes = check_type strtod (length bytes) (copy bytes) (memchr b'|' bytes)

value_code : Strtod → List ℕ → ℕ
value_code strtod bytes =
    if strtod bytes
    then (elim (memchr b'|' bytes) [
      | none ↦ 1
      | some bar ↦ type_code strtod (drop (suc bar) bytes)
    ])
    else 1

line_code : Strtod → List ℕ → ℕ
line_code strtod line = elim (memchr b':' line) [
  | none ↦ 1
  | some colon ↦ if ltb colon 1 then 1 else value_code strtod (drop (suc colon) line)
]

drop-copy : (i : ℕ) (xs : List ℕ) → i < length xs → drop (suc i) (copy xs) ≡ copy (drop (suc i) xs)
drop-copy i xs inside = drop-append_of_le (suc i) xs (0 ∷ []) (omega arith)

check_value_lem :
    (strtod : Strtod) (bytes : List ℕ)
    → Lacks 0 bytes
    → check_value strtod (length bytes) (copy bytes) ≡ done (value_code strtod bytes)
unfolding check_value value_code type_code
check_value_lem strtod bytes h = elim (Bool-cases (strtod bytes)) [
  | inr bad ↦ rw (c_str-copy bytes h, bad) refl
  | inl good ↦ elim (Option-cases (memchr b'|' bytes)) [
    | inl alone ↦ rw (c_str-copy bytes h, good, search-copy b'|' bytes, alone) refl
    | inr (bar, found) ↦
        let inside = memchr-lt b'|' bytes bar found in
        rw
          (
            c_str-copy bytes h,
            good,
            search-copy b'|' bytes,
            found,
            drop-copy bar bytes inside,
            ← length-drop (suc bar) bytes,
            search-copy b'|' (drop (suc bar) bytes),
          )
          refl
  ]
]

behind_colon :
    (strtod : Strtod) (line : List ℕ) (colon : ℕ)
    → Lacks 0 line
    → colon < length line
    → check_value strtod (length line - suc colon) (drop (suc colon) (copy (c_str line)))
      ≡ done (value_code strtod (drop (suc colon) line))
behind_colon strtod line colon h inside =
    ap₂ (check_value strtod) (sym (length-drop (suc colon) line))
      (ap (λ l. drop (suc colon) (copy l)) (c_str-Lacks line h) ∙ drop-copy colon line inside)
    ∙ check_value_lem strtod (drop (suc colon) line) (Lacks-drop 0 (suc colon) line h)

validate_statsd_lem :
    (strtod : Strtod) (line : List ℕ)
    → Lacks 0 line
    → validate_statsd strtod true line ≡ done (line_code strtod line)
unfolding validate_statsd line_code
validate_statsd_lem strtod line h = elim (Option-cases (memchr b':' line)) [
  | inl alone ↦ rw (c_str-Lacks line h, search-copy b':' line, alone, line_code) refl
  | inr (colon, found) ↦
      let inside = memchr-lt b':' line colon found in
      elim (Bool-cases (ltb colon 1)) [
        | inl empty ↦ rw (c_str-Lacks line h, search-copy b':' line, found, empty, line_code) refl
        | inr named ↦
            rw (c_str-Lacks line h, search-copy b':' line, found, named, line_code)
              (behind_colon strtod line colon h inside)
      ]
]

line_code-cases :
    (strtod : Strtod) (line : List ℕ) → (line_code strtod line ≡ 0) ⊎ (line_code strtod line ≡ 1)
unfolding line_code value_code type_code
line_code-cases strtod line = elim (Option-cases (memchr b':' line)) [
  | inl alone ↦ inr (rw (alone, line_code))
  | inr (colon, found) ↦
      let bytes = drop (suc colon) line in
      elim (Option-cases (memchr b'|' bytes)) [
        | inl bare ↦ inr (rw (found, bare, line_code) (ground arith))
        | inr (bar, barred) ↦
            let r = drop (suc bar) bytes in
            rw (found, barred, line_code)
              (ground (arith, check_type_code strtod (length r) (copy r) (memchr b'|' r)))
      ]
]

value_code_iff :
    (strtod : Strtod) (bytes : List ℕ)
    → Lacks 0 bytes
    → (value_code strtod bytes ≡ 0) ↔ IsValued strtod bytes
unfolding value_code type_code
value_code_iff strtod bytes h = (accepts, accepted)
  where
    accepts : value_code strtod bytes ≡ 0 → IsValued strtod bytes
    accepts e = elim (Option-cases (memchr b'|' bytes)) [
      | inl bare ↦ absurd (ground (arith, rw (bare, value_code) at e))
      | inr (bar, found) ↦
          let (number, typed) = accepted_if {b = strtod bytes} (rw (found, value_code) at e) in
          let (cut, plain) = memchr-split b'|' bytes bar found in
          record {
            value = take bar bytes;
            rest = drop (suc bar) bytes;
            cut = cut;
            plain = plain;
            number = number;
            typed =
                (check_type_iff strtod (drop (suc bar) bytes) (Lacks-drop 0 (suc bar) bytes h)).0
                  typed;
          }
    ]

    accepted : IsValued strtod bytes → value_code strtod bytes ≡ 0
    accepted v =
        let found : memchr b'|' bytes ≡ some (length v.value) =
          ap (memchr b'|') v.cut ∙ memchr-append b'|' v.value v.rest v.plain in
        let rest : drop (suc (length v.value)) bytes ≡ v.rest =
          ap (drop (suc (length v.value))) v.cut ∙ drop_behind b'|' v.value v.rest in
        let plain = subst (Lacks 0) rest (Lacks-drop 0 (suc (length v.value)) bytes h) in
        rw (v.number, found, rest, value_code) ((check_type_iff strtod v.rest plain).1 v.typed)

line_code_iff :
    (strtod : Strtod) (line : List ℕ)
    → Lacks 0 line
    → (line_code strtod line ≡ 0) ↔ IsStatsd strtod line
unfolding line_code
line_code_iff strtod line h = (accepts, accepted)
  where
    accepts : line_code strtod line ≡ 0 → IsStatsd strtod line
    accepts e = elim (Option-cases (memchr b':' line)) [
      | inl bare ↦ absurd (ground (arith, rw (bare, line_code) at e))
      | inr (colon, found) ↦ elim (Bool-cases (ltb colon 1)) [
        | inl empty ↦ absurd (ground (arith, rw (found, empty, line_code) at e))
        | inr named ↦
            let (cut, plain) = memchr-split b':' line colon found in
            record {
              key = take colon line;
              rest = drop (suc colon) line;
              cut = cut;
              plain = plain;
              some_bytes = ground (arith, length-take colon line, memchr-lt b':' line colon found);
              valued =
                  (value_code_iff strtod (drop (suc colon) line)
                      (Lacks-drop 0 (suc colon) line h)).0
                    (rw (found, named, line_code) at e);
            }
      ]
    ]

    accepted : IsStatsd strtod line → line_code strtod line ≡ 0
    accepted l =
        let found : memchr b':' line ≡ some (length l.key) =
          ap (memchr b':') l.cut ∙ memchr-append b':' l.key l.rest l.plain in
        let rest : drop (suc (length l.key)) line ≡ l.rest =
          ap (drop (suc (length l.key))) l.cut ∙ drop_behind b':' l.key l.rest in
        let named : ltb (length l.key) 1 ≡ false = ground (arith, l.some_bytes) in
        let plain = subst (Lacks 0) rest (Lacks-drop 0 (suc (length l.key)) line h) in
        rw (found, rest, named, line_code) ((value_code_iff strtod l.rest plain).1 l.valued)

-- For a line without NUL, whatever strtod converts, and where strndup has memory: validate_statsd
-- returns 0 and the line is a non-empty key without colon, a colon, a value that starts with a
-- number and has no bar, a bar and a known type, alone or followed by `|@` and a sample rate that
-- starts with a number; or it returns 1 and the line is not of that form.
pub validate_statsd-cases :
    (strtod : Strtod) (line : List ℕ)
    → Lacks 0 line
    → ((validate_statsd strtod true line ≡ done 0) × IsStatsd strtod line)
      ⊎ ((validate_statsd strtod true line ≡ done 1) × ¬ IsStatsd strtod line)
validate_statsd-cases strtod line h =
    let result = validate_statsd_lem strtod line h in
    elim (line_code-cases strtod line) [
      | inl good ↦ inl (result ∙ ap done good, (line_code_iff strtod line h).0 good)
      | inr bad ↦ inr (
        result ∙ ap done bad,
        λ l. absurd (omega (arith, bad, (line_code_iff strtod line h).1 l)),
      )
    ]
