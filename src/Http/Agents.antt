-- ===== src/Http/Agents.antt =====
-- `classifyUserAgent` of internal/httpapi/server.go: which reasons it gives.
use formation_web_analytics.Base.{
  ◌≡◌, refl, sym, ◌∙◌, ap, Bool, true, false, ◌&&◌, ◌||◌, not, List, [], ◌∷◌, ◌++◌, inl, inr, ◌⊎◌,
  Bool-cases, ||_false, Bytes, codes, bytes_eq, bytes_eq→eq, bytes_eq_sym, ||_assoc, is_empty,
  arith, if◌then◌else◌, subst,
}
use formation_web_analytics.Go.{Platform, to_lower}
use formation_web_analytics.Go.Strings.{trim_space, contains}
use formation_web_analytics.Http.{has_reason, add_reasons, classify_user_agent}

-- the reason that a needle gives
abbrev pub reason_of : Bytes → Bytes
reason_of needle = codes "user_agent:" ++ needle

-- whether one of the needles that the text contains gives the reason
unfoldable pub is_named : Bytes → List Bytes → Bytes → Bool
is_named user_agent [] reason = false
is_named user_agent (needle ∷ needles) reason =
    contains needle user_agent && bytes_eq (reason_of needle) reason
    || is_named user_agent needles reason

-- no reason stands twice
abbrev pub IsDistinct : List Bytes → Type 0
IsDistinct [] = Unit
IsDistinct (r ∷ reasons) = (has_reason reasons r ≡ false) × IsDistinct reasons

abbrev pub is_nil : List Bytes → Bool
is_nil [] = true
is_nil (_ ∷ _) = false

has_reason-append :
    (reasons : List Bytes) (new reason : Bytes)
    → has_reason (reasons ++ new ∷ []) reason ≡ (has_reason reasons reason || bytes_eq new reason)
unfolding has_reason
has_reason-append [] new reason = ground arith
has_reason-append (r ∷ reasons) new reason = ground (arith, has_reason-append reasons new reason)

IsDistinct-append :
    (reasons : List Bytes) (new : Bytes)
    → IsDistinct reasons
    → has_reason reasons new ≡ false
    → IsDistinct (reasons ++ new ∷ [])
unfolding has_reason
IsDistinct-append [] new d h = (refl, tt)
IsDistinct-append (r ∷ reasons) new (fresh, d) h =
    let (other, absent) = ||_false (bytes_eq r new) (has_reason reasons new) h in
    (
      rw (has_reason-append reasons new r, fresh, bytes_eq_sym new r) other,
      IsDistinct-append reasons new d absent,
    )

-- one needle
add_reason :
    (user_agent needle : Bytes) (reasons : List Bytes) (reason : Bytes)
    → let new = reason_of needle in
      has_reason
        (if not (contains needle user_agent) || has_reason reasons new
          then reasons
          else reasons ++ new ∷ [])
        reason
      ≡ (has_reason reasons reason || contains needle user_agent && bytes_eq new reason)
add_reason user_agent needle reasons reason =
    let new = reason_of needle in
    elim (Bool-cases (contains needle user_agent)) [
      | inl found ↦ elim (Bool-cases (has_reason reasons new)) [
        | inl known ↦ elim (Bool-cases (bytes_eq new reason)) [
          | inl same ↦
              let again : has_reason reasons reason ≡ true =
                subst (λ r. has_reason reasons r ≡ true) (bytes_eq→eq new reason same) known in
              rw (found, known, again) refl
          | inr other ↦ rw (found, known, other) (ground arith)
        ]
        | inr fresh ↦ rw (found, fresh) (has_reason-append reasons new reason)
      ]
      | inr absent ↦ rw absent (ground arith)
    ]

add_reasons-is_named :
    (user_agent : Bytes) (needles reasons : List Bytes) (reason : Bytes)
    → has_reason (add_reasons user_agent needles reasons) reason
      ≡ (has_reason reasons reason || is_named user_agent needles reason)
unfolding add_reasons is_named
add_reasons-is_named user_agent [] reasons reason = ground arith
add_reasons-is_named user_agent (needle ∷ needles) reasons reason =
    let new = reason_of needle in
    let next =
      if not (contains needle user_agent) || has_reason reasons new
      then reasons
      else reasons ++ new ∷ [] in
    add_reasons-is_named user_agent needles next reason
    ∙ ap (λ b. b || is_named user_agent needles reason)
        (add_reason user_agent needle reasons reason)
    ∙ ||_assoc (has_reason reasons reason) _ _

add_reasons-IsDistinct :
    (user_agent : Bytes) (needles reasons : List Bytes)
    → IsDistinct reasons
    → IsDistinct (add_reasons user_agent needles reasons)
unfolding add_reasons
add_reasons-IsDistinct user_agent [] reasons d = d
add_reasons-IsDistinct user_agent (needle ∷ needles) reasons d =
    let new = reason_of needle in
    elim (Bool-cases (contains needle user_agent)) [
      | inl found ↦ elim (Bool-cases (has_reason reasons new)) [
        | inl known ↦ rw (found, known) (add_reasons-IsDistinct user_agent needles reasons d)
        | inr fresh ↦
            rw (found, fresh)
              (add_reasons-IsDistinct user_agent needles (reasons ++ new ∷ [])
                (IsDistinct-append reasons new d fresh))
      ]
      | inr absent ↦ rw absent (add_reasons-IsDistinct user_agent needles reasons d)
    ]

is_named-append :
    (user_agent : Bytes) (needles more : List Bytes) (reason : Bytes)
    → is_named user_agent (needles ++ more) reason
      ≡ (is_named user_agent needles reason || is_named user_agent more reason)
unfolding is_named
is_named-append user_agent [] more reason = refl
is_named-append user_agent (needle ∷ needles) more reason =
    rw (is_named-append user_agent needles more reason) (
      sym (
        ||_assoc (contains needle user_agent && bytes_eq (reason_of needle) reason)
          (is_named user_agent needles reason) (is_named user_agent more reason)))

-- what a request's user agent is found to be, of the needles of both lists
pub record IsClassified (user_agent : Bytes) (needles : List Bytes) (out : Bool × List Bytes)
    : Type 0 where
  pub suspect : out.0 ≡ not (is_nil out.1)
  pub reasons : (reason : Bytes) → has_reason out.1 reason ≡ is_named user_agent needles reason
  pub distinct : IsDistinct out.1

-- A blank user agent is suspect for being missing. Any other is suspect exactly when there is a reason;
-- the reasons are those of the needles, of either list, that the text in lower case with no space around
-- it contains, and none is given twice.
pub classify_user_agent-IsClassified :
    (go : Platform) (user_agent : Bytes) (flagged suspect : List Bytes)
    → let lowered = trim_space (to_lower go user_agent) in
      let out = classify_user_agent go user_agent flagged suspect in
      ((is_empty lowered ≡ true) × (out ≡ (true, codes "user_agent:missing" ∷ [])))
      ⊎ ((is_empty lowered ≡ false) × IsClassified lowered (flagged ++ suspect) out)
unfolding classify_user_agent
classify_user_agent-IsClassified go user_agent flagged suspect =
    let lowered = trim_space (to_lower go user_agent) in
    let first = add_reasons lowered flagged [] in
    elim (Bool-cases (is_empty lowered)) [
      | inl blank ↦ inl (blank, rw blank refl)
      | inr shown ↦ inr (
        shown,
        rw shown (record {
          suspect = some_reason (add_reasons lowered suspect first);
          reasons = λ reason.
              add_reasons-is_named lowered suspect first reason
              ∙ ap (λ b. b || is_named lowered suspect reason)
                  (add_reasons-is_named lowered flagged [] reason)
              ∙ sym (is_named-append lowered flagged suspect reason);
          distinct =
              add_reasons-IsDistinct lowered suspect first
                (add_reasons-IsDistinct lowered flagged [] tt);
        }),
      )
    ]
  where
    some_reason : (rs : List Bytes) → (elim rs [ [] ↦ false | ◌∷◌ r rest ↦ true ]) ≡ not (is_nil rs)
    some_reason [] = refl
    some_reason (r ∷ rest) = refl
