-- ===== src/Messages/Refinement/Pushes.antt =====
-- A message with a new identifier keeps the identifiers apart.
use voltron_ocpp_protocols.Common.{
  true, false, ◌||◌, String, ◌≡◌, refl, ap, sym, ◌∙◌, ◌==◌, string_eq, eq_iff, List, [], ◌∷◌, ◌++◌,
  set, arith, Bool-cases, inl, inr,
}
use mathlib.Core.Path.{subst}
use voltron_ocpp_protocols.Messages.{MemoryMessage, queue_of}
use voltron_ocpp_protocols.Messages.Draining.{
  ids, all_ids, occurs, occurs_in, AreDistinct, AreUnique,
}

occurs-push :
    (id : String) (q : List MemoryMessage) (m : MemoryMessage)
    → occurs id (ids (q ++ m ∷ [])) ≡ (occurs id (ids q) || m.id == id)
occurs-push id [] m = ground arith
occurs-push id (x ∷ xs) m = ground (arith, occurs-push id xs m)

AreDistinct-push :
    (q : List MemoryMessage) (m : MemoryMessage)
    → AreDistinct (ids q)
    → occurs m.id (ids q) ≡ false
    → AreDistinct (ids (q ++ m ∷ []))
AreDistinct-push [] m d h = (refl, tt)
AreDistinct-push (x ∷ xs) m (new, d) h = (
  ground (arith, occurs-push x.id xs m, eq_iff m.id x.id, eq_iff x.id m.id),
  AreDistinct-push xs m d (ground arith),
)

-- The queues behind a push.
abbrev pub pushed :
    MemoryMessage → String → List (String × List MemoryMessage) → List (String × List MemoryMessage)
pushed m station queues = set queues station (queue_of queues station ++ m ∷ [])

module _ (m : MemoryMessage) (station : String) where
  pushed_here :
      (i : String) (q : List MemoryMessage) (queues : List (String × List MemoryMessage))
      → (i == station) ≡ true
      → pushed m station ((i, q) ∷ queues) ≡ (station, q ++ m ∷ []) ∷ queues
  pushed_here i q queues e = rw e refl

  pushed_there :
      (i : String) (q : List MemoryMessage) (queues : List (String × List MemoryMessage))
      → (i == station) ≡ false
      → pushed m station ((i, q) ∷ queues) ≡ (i, q) ∷ pushed m station queues
  pushed_there i q queues e = rw e refl

  pub occurs_in-pushed :
      (id : String) (queues : List (String × List MemoryMessage))
      → occurs_in id (all_ids (pushed m station queues))
        ≡ (occurs_in id (all_ids queues) || m.id == id)
  occurs_in-pushed id [] = ground arith
  occurs_in-pushed id ((i, q) ∷ queues) = elim (Bool-cases (i == station)) [
    | inl e ↦
        ap (λ x. occurs_in id (all_ids x)) (pushed_here i q queues e)
        ∙ ground (arith, occurs-push id q m)
    | inr e ↦
        ap (λ x. occurs_in id (all_ids x)) (pushed_there i q queues e)
        ∙ ground (arith, occurs_in-pushed id queues)
  ]

  pub AreUnique-pushed :
      (queues : List (String × List MemoryMessage))
      → AreUnique (all_ids queues)
      → occurs_in m.id (all_ids queues) ≡ false
      → AreUnique (all_ids (pushed m station queues))
  AreUnique-pushed [] u h = ((refl, tt), (λ id e. cc), tt)
  AreUnique-pushed ((i, q) ∷ queues) (d, apart, u) h = elim (Bool-cases (i == station)) [
    | inl e ↦
        subst (λ x. AreUnique (all_ids x)) (sym (pushed_here i q queues e))
          (
            AreDistinct-push q m d (ground arith),
            (λ id k. ground (arith, occurs-push id q m, apart id, eq_iff m.id id)),
            u,
          )
    | inr e ↦
        subst (λ x. AreUnique (all_ids x)) (sym (pushed_there i q queues e))
          (
            d,
            (λ id k. ground (arith, occurs_in-pushed id queues, apart id, eq_iff m.id id)),
            AreUnique-pushed queues u (ground arith),
          )
  ]
