-- ===== src/Utils/DepResolver/Schedule.antt =====
-- Scheduling keeps the list of tasks in order, and simple callbacks come to an end.
use bitpunch.Base.{
  ◌↔◌, ℕ, ◌+◌, ◌<◌, ◌≡◌, refl, sym, ap, ◌∙◌, ◌⊎◌, inl, inr, arith, List, [], ◌∷◌, ◌++◌, Bool, true,
  false, Bool-cases, not,
}
use bitpunch.Utils.TagSet.{TagSet, is_empty}
use bitpunch.Utils.DepResolver.{
  dep_ok, Entry, Resolver, get_unresolved, new_entry, schedule_last, schedule_first,
  dep_resolver_schedule_tags,
}
use bitpunch.Utils.DepResolver.Resolved.{IsIn, Grows, IsValid}

IsIn-append : (e y : Entry) (xs : List Entry) → IsIn e (xs ++ (y ∷ [])) → IsIn e xs ⊎ (e ≡ y)
IsIn-append e y [] (inl h) = inr h
IsIn-append e y [] (inr h) = elim h [ ]
IsIn-append e y (x ∷ xs) (inl h) = inl (inl h)
IsIn-append e y (x ∷ xs) (inr h) = elim (IsIn-append e y xs h) [
  | inl k ↦ inl (inr k)
  | inr k ↦ inr k
]

append-IsIn : (e y : Entry) (xs : List Entry) → IsIn e xs → IsIn e (xs ++ (y ∷ []))
append-IsIn e y [] h = elim h [ ]
append-IsIn e y (x ∷ xs) (inl h) = inl h
append-IsIn e y (x ∷ xs) (inr h) = inr (append-IsIn e y xs h)

-- A new entry has an address of its own.
apart_from_new :
    (dr : Resolver) (y e f : Entry)
    → IsValid dr
    → y.address ≡ dr.next_address
    → IsIn e dr.tasks ⊎ (e ≡ y)
    → IsIn f dr.tasks ⊎ (f ≡ y)
    → e.address ≡ f.address
    → e ≡ f
apart_from_new dr y e f (apart, below) new (inl he) (inl hf) same = apart e f he hf same
apart_from_new dr y e f (apart, below) new (inl he) (inr hf) same =
    absurd (omega (arith, below e he, new, same, ap (λ (x : Entry). x.address) hf))
apart_from_new dr y e f (apart, below) new (inr he) (inl hf) same =
    absurd (omega (arith, below f hf, new, same, ap (λ (x : Entry). x.address) he))
apart_from_new dr y e f (apart, below) new (inr he) (inr hf) same = he ∙ sym hf

below_new :
    (dr : Resolver) (y e : Entry)
    → IsValid dr
    → y.address ≡ dr.next_address
    → IsIn e dr.tasks ⊎ (e ≡ y)
    → e.address < dr.next_address + 1
below_new dr y e (apart, below) new (inl he) = omega (arith, below e he)
below_new dr y e (apart, below) new (inr he) = omega (arith, new, ap (λ (x : Entry). x.address) he)

-- A state that keeps the tasks and the resolved tags of another, and is valid.
abbrev pub IsExtension : Resolver → Resolver → Type 0
IsExtension dr dr' = IsValid dr' × Grows dr dr' × ((e : Entry) → IsIn e dr.tasks → IsIn e dr'.tasks)

schedule_last_extends :
    (dr : Resolver) (node : ℕ) (unresolved : TagSet) (arg : ℕ)
    → IsValid dr
    → IsExtension dr (schedule_last dr node unresolved arg)
unfolding schedule_last
schedule_last_extends dr node unresolved arg valid =
    let y = new_entry dr node unresolved arg false in
    elim (Bool-cases (is_empty unresolved)) [
      | inl h ↦ rw h (valid, (λ i k set. set), (λ e he. he))
      | inr h ↦ rw h (
        (
          (λ e f he hf same.
              apart_from_new dr y e f valid refl (IsIn-append e y dr.tasks he)
                (IsIn-append f y dr.tasks hf) same),
          (λ e he. below_new dr y e valid refl (IsIn-append e y dr.tasks he)),
        ),
        (λ i k set. set),
        (λ e he. append-IsIn e y dr.tasks he),
      )
    ]

turn : (e y : Entry) (xs : List Entry) → IsIn e (y ∷ xs) → IsIn e xs ⊎ (e ≡ y)
turn e y xs (inl h) = inr h
turn e y xs (inr h) = inl h

schedule_first_extends :
    (dr : Resolver) (node : ℕ) (unresolved : TagSet) (arg : ℕ) (keep : Bool)
    → IsValid dr
    → IsExtension dr (schedule_first dr node unresolved arg keep)
unfolding schedule_first
schedule_first_extends dr node unresolved arg keep valid =
    let y = new_entry dr node unresolved arg keep in
    (
      (
        (λ e f he hf same.
            apart_from_new dr y e f valid refl (turn e y dr.tasks he) (turn f y dr.tasks hf) same),
        (λ e he. below_new dr y e valid refl (turn e y dr.tasks he)),
      ),
      (λ i k set. set),
      (λ e he. inr he),
    )

-- Scheduling tags in a valid state leaves a valid state, in which no task has gone and no tag has
-- been taken back; it returns DEP_RESOLVER_OK exactly if every tag that is needed now is resolved.
pub dep_resolver_schedule_tags-IsExtension :
    (dr : Resolver) (node : ℕ) (tags_pre tags_post : TagSet) (arg : ℕ)
    → IsValid dr
    → IsExtension dr (dep_resolver_schedule_tags dr node tags_pre tags_post arg).0
      × (((dep_resolver_schedule_tags dr node tags_pre tags_post arg).1 ≡ dep_ok)
          ↔ (is_empty (get_unresolved (dr.nodes node) tags_pre) ≡ true))
unfolding dep_resolver_schedule_tags
dep_resolver_schedule_tags-IsExtension dr node tags_pre tags_post arg valid =
    let last = get_unresolved (dr.nodes node) tags_post in
    let first = get_unresolved (dr.nodes node) tags_pre in
    let (valid1, grows1, kept1) = schedule_last_extends dr node last arg valid in
    let dr1 = schedule_last dr node last arg in
    let (valid2, grows2, kept2) =
      schedule_first_extends dr1 node first arg (not (is_empty last)) valid1 in
    elim (Bool-cases (is_empty first)) [
      | inl h ↦ rw h ((valid1, grows1, kept1), ((λ z. refl), (λ z. refl)))
      | inr h ↦ rw h (
        (valid2, (λ i k set. grows2 i k (grows1 i k set)), (λ e he. kept2 e (kept1 e he))),
        ((λ z. absurd (ground arith)), (λ z. cc)),
      )
    ]
