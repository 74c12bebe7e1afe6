-- ===== src/Supervisor/Plan/Exact.antt =====
-- The reasons for an update.
use hostd.Base.{
  ◌≡◌, ◌≢◌, ◌↔◌, ◌⊎◌, inl, inr, true, List, [], Text, arith, beq, beq_iff, list_eq, list_eq_iff,
  Bool-cases,
}
use hostd.Service.{Service}
use hostd.Supervisor.Plan.{same_definition, definition_diff}

texts_eq_iff : (a b : List Text) → (list_eq beq a b ≡ true) ↔ (a ≡ b)
texts_eq_iff = list_eq_iff beq beq_iff

-- An update whose list of reasons is empty is one in which nothing but the volumes differ.
pub definition_diff-nil :
    (a b : Service)
    → definition_diff a b ≡ []
    → (same_definition a b ≡ true) ⊎ (a.volumes ≢ b.volumes)
unfolding definition_diff same_definition
definition_diff-nil a b h = elim (Bool-cases (list_eq beq a.volumes b.volumes)) [
  | inl same ↦ inl (ground arith)
  | inr other ↦ inr (λ e. cc ((texts_eq_iff a.volumes b.volumes).1 e))
]
