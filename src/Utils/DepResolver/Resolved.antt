-- ===== src/Utils/DepResolver/Resolved.antt =====
-- When the resolution succeeds, every task has been resolved.
use bitpunch.Base.{ℕ, ◌≡◌, refl, ◌∙◌, ◌⊎◌, inl, inr, arith, List, [], ◌∷◌, true, ◌<◌}
use bitpunch.Utils.TagSet.{
  TagSet, has_tag, union, minus, is_empty, contains, has_tag-union, has_tag-minus, is_empty_sound,
  is_empty_complete,
}
use bitpunch.Utils.DepResolver.{
  NodeTags, Entry, Resolver, get_unresolved, ResolveFunc, is_first, tail,
}

abbrev pub IsIn : Entry → List Entry → Type 0
IsIn e [] = ⊥
IsIn e (x ∷ xs) = (e ≡ x) ⊎ IsIn e xs

-- No tag is unresolved again.
abbrev pub Grows : Resolver → Resolver → Type 0
Grows dr dr' =
    (i k : ℕ)
    → has_tag (dr.nodes i).resolved_tags k ≡ true
    → has_tag (dr'.nodes i).resolved_tags k ≡ true

abbrev pub IsResolved : Resolver → Entry → Type 0
IsResolved dr e = is_empty (get_unresolved (dr.nodes e.node) e.tags) ≡ true

-- Entries are told apart by their addresses.
abbrev pub AreDistinct : List Entry → Type 0
AreDistinct tasks = (e f : Entry) → IsIn e tasks → IsIn f tasks → e.address ≡ f.address → e ≡ f

-- Every entry of the list has an address that has been given out, and no two have the same.
abbrev pub IsValid : Resolver → Type 0
IsValid dr = AreDistinct dr.tasks × ((e : Entry) → IsIn e dr.tasks → e.address < dr.next_address)

-- What a callback must not do in such a state: take back a tag, drop a task, or leave another state.
abbrev pub IsHonest : ResolveFunc → Type 0
IsHonest f =
    (dr : Resolver) (node : ℕ) (tags : TagSet) (arg : ℕ)
    → IsValid dr
    → Grows dr (f dr node tags arg).0
      × ((e : Entry) → IsIn e dr.tasks → IsIn e (f dr node tags arg).0.tasks)
      × IsValid (f dr node tags arg).0

pub Grows-IsResolved :
    (dr dr' : Resolver) (e : Entry) → Grows dr dr' → IsResolved dr e → IsResolved dr' e
Grows-IsResolved dr dr' e grows h =
    is_empty_complete (get_unresolved (dr'.nodes e.node) e.tags) (λ k. ground (
      arith,
      has_tag-minus e.tags (dr.nodes e.node).resolved_tags k,
      has_tag-minus e.tags (dr'.nodes e.node).resolved_tags k,
      is_empty_sound (get_unresolved (dr.nodes e.node) e.tags) k h,
      grows e.node k,
    ))

pub tail_distinct : (tasks : List Entry) → AreDistinct tasks → AreDistinct (tail tasks)
tail_distinct [] h = h
tail_distinct (x ∷ tasks) h = λ e f he hf same. h e f (inr he) (inr hf) same

pub tail_below :
    (bound : ℕ) (tasks : List Entry)
    → ((e : Entry) → IsIn e tasks → e.address < bound)
    → (e : Entry) → IsIn e (tail tasks)
    → e.address < bound
tail_below bound [] h = h
tail_below bound (x ∷ tasks) h = λ e he. h e (inr he)

pub first_entry :
    (entry e : Entry) (tasks : List Entry)
    → AreDistinct tasks
    → IsIn entry tasks
    → is_first entry tasks ≡ true
    → IsIn e tasks
    → (e ≡ entry) ⊎ IsIn e (tail tasks)
first_entry entry e [] distinct inside first (h) = elim h [ ]
first_entry entry e (x ∷ tasks) distinct inside first (inr h) = inr h
first_entry entry e (x ∷ tasks) distinct inside first (inl h) =
    inl (h ∙ distinct x entry (inl refl) inside (ground arith))

-- What a round of the loop guarantees.
abbrev pub IsProgress : Resolver → Resolver → Type 0
IsProgress dr dr' =
    Grows dr dr'
    × ((e : Entry) → IsIn e dr.tasks → IsIn e dr'.tasks ⊎ IsResolved dr' e)
    × IsValid dr'

pub resolved_now :
    (dr0 : NodeTags) (dr : Resolver) (entry : Entry) (resolved : TagSet)
    → ((k : ℕ)
        → has_tag dr0.resolved_tags k ≡ true
        → has_tag (dr.nodes entry.node).resolved_tags k ≡ true)
    → contains resolved (get_unresolved dr0 entry.tags) ≡ true
    → is_empty (minus entry.tags (union (dr.nodes entry.node).resolved_tags resolved)) ≡ true
unfolding contains
resolved_now dr0 dr entry resolved grows h =
    let r = (dr.nodes entry.node).resolved_tags in
    is_empty_complete (minus entry.tags (union r resolved)) (λ k. ground (
      arith,
      has_tag-minus entry.tags (union r resolved) k,
      has_tag-union r resolved k,
      grows k,
      has_tag-minus entry.tags dr0.resolved_tags k,
      has_tag-minus (minus entry.tags dr0.resolved_tags) resolved k,
      is_empty_sound (minus (minus entry.tags dr0.resolved_tags) resolved) k h,
    ))
