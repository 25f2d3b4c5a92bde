-- ===== src/Handles/Invariant.antt =====
-- The two tables of the handle manager agree.
use async.Base.{
  ℕ, ◌^◌, ◌<◌, ◌≡◌, ◌≢◌, refl, ap, sym, ◌∙◌, Bool, true, false, List, [], ◌∷◌, Option, none, some,
  ◌==◌, if◌then◌else◌, arith, Bool-cases, Option-cases, inl, inr, ◌&&◌, ◌||◌,
}
use async.Base.Tables.{
  find, put, erase, member, remove, find-put, find-erase, member-insert, member-remove,
}
use async.Handles.{
  Handle, HandleManager, or_empty, disown, plugin_set, add_to_plugin_set, is_empty,
  remove_from_plugin_set,
}

-- Whether a plugin's set lists an id.
abbrev pub lists : (owner id : ℕ) → List (ℕ × List ℕ) → Bool
lists owner id plugins = member id (plugin_set owner plugins)

abbrev pub owned_by : ℕ → Option Handle → Bool
owned_by owner none = false
owned_by owner (some h) = h.owner == owner

-- Ids in use are nonzero `int`s, the set of a plugin lists exactly the handles that it owns, and no
-- set is kept for `nullptr`.
pub record IsValid (s : HandleManager) : Type 0 where
  pub in_range : (id : ℕ) (h : Handle) → find id s.used_handles ≡ some h → (id ≢ 0) × (id < 2 ^ 32)
  pub agrees :
      (owner id : ℕ)
      → owner ≢ 0
      → lists owner id s.plugin_handles ≡ owned_by owner (find id s.used_handles)
  pub no_null : find 0 s.plugin_handles ≡ none
  pub cursor : s.next_handle < 2 ^ 32

lists-put :
    (p q j : ℕ) (ids : List ℕ) (plugins : List (ℕ × List ℕ))
    → lists q j (put p ids plugins) ≡ (if p == q then member j ids else lists q j plugins)
lists-put p q j ids plugins =
    ap (λ o. member j (or_empty o)) (find-put p q ids plugins)
    ∙ elim (Bool-cases (p == q)) [ inl e ↦ rw e | inr e ↦ rw e ]

pub lists-erase :
    (p q j : ℕ) (plugins : List (ℕ × List ℕ))
    → lists q j (erase p plugins) ≡ (if p == q then false else lists q j plugins)
unfolding member
lists-erase p q j plugins =
    ap (λ o. member j (or_empty o)) (find-erase p q plugins)
    ∙ elim (Bool-cases (p == q)) [ inl e ↦ rw e | inr e ↦ rw e ]

pub lists-add_to_plugin_set :
    (p id q j : ℕ) (plugins : List (ℕ × List ℕ))
    → q ≢ 0
    → lists q j (add_to_plugin_set p id plugins) ≡ (((p == q) && (id == j)) || lists q j plugins)
unfolding add_to_plugin_set
lists-add_to_plugin_set p id q j plugins ne = elim (Bool-cases (p == 0)) [
  | inl e ↦ ground arith
  | inr e ↦ rw e (
      rw lists-put (elim (Bool-cases (p == q)) [
        | inl f ↦
            let same : p ≡ q = ground arith in
            rw f (rw same (member-insert id j (plugin_set q plugins)))
        | inr f ↦ rw f
      ]))
]

nothing_left : (j : ℕ) (s : List ℕ) → is_empty s ≡ true → member j s ≡ false
unfolding member
nothing_left j [] h = refl
nothing_left j (x ∷ s) h = cc

lists-found :
    (p q j : ℕ) (plugins : List (ℕ × List ℕ)) (o : Option (List ℕ))
    → find p plugins ≡ o
    → (p == q) ≡ true
    → lists q j plugins ≡ member j (or_empty o)
lists-found p q j plugins o e f =
    let same : q ≡ p = ground arith in rw same (ap (λ o. member j (or_empty o)) e)

pub lists-remove_from_plugin_set :
    (p id q j : ℕ) (plugins : List (ℕ × List ℕ))
    → lists q j (remove_from_plugin_set p id plugins)
      ≡ (if (p == q) && (id == j) then false else lists q j plugins)
unfolding remove_from_plugin_set member
lists-remove_from_plugin_set p id q j plugins = elim (Bool-cases (p == q)) [
  | inr f ↦ rw f (elim (Option-cases (find p plugins)) [
    | inl e ↦ rw e
    | inr (ids, e) ↦ rw e (elim (Bool-cases (is_empty (remove id ids))) [
      | inl g ↦ rw (g, lists-erase, f)
      | inr g ↦ rw (g, lists-put, f)
    ])
  ])
  | inl f ↦ rw f (elim (Option-cases (find p plugins)) [
    | inl e ↦ rw (e, lists-found p q j plugins none e f) (ground arith)
    | inr (ids, e) ↦
        rw (e, lists-found p q j plugins (some ids) e f)
          (elim (Bool-cases (is_empty (remove id ids))) [
            | inl g ↦
                rw (g, lists-erase, f)
                  (sym (nothing_left j (remove id ids) g) ∙ member-remove id j ids)
            | inr g ↦ rw (g, lists-put, f) (member-remove id j ids)
          ])
  ])
]

pub lists-disown :
    (p id q j : ℕ) (plugins : List (ℕ × List ℕ))
    → q ≢ 0
    → lists q j (disown p id plugins) ≡ (if (p == q) && (id == j) then false else lists q j plugins)
unfolding disown
lists-disown p id q j plugins ne = elim (Bool-cases (p == 0)) [
  | inl e ↦ ground arith
  | inr e ↦ rw e (lists-remove_from_plugin_set p id q j plugins)
]

pub find-add_to_plugin_set_null :
    (p id : ℕ) (plugins : List (ℕ × List ℕ))
    → find 0 plugins ≡ none
    → find 0 (add_to_plugin_set p id plugins) ≡ none
unfolding add_to_plugin_set
find-add_to_plugin_set_null p id plugins h = elim (Bool-cases (p == 0)) [
  | inl e ↦ rw e h
  | inr e ↦ rw e (rw (find-put, e) h)
]

pub find-disown_null :
    (p id : ℕ) (plugins : List (ℕ × List ℕ))
    → find 0 plugins ≡ none
    → find 0 (disown p id plugins) ≡ none
unfolding disown remove_from_plugin_set
find-disown_null p id plugins h = elim (Bool-cases (p == 0)) [
  | inl e ↦ rw e h
  | inr e ↦ rw e (elim (Option-cases (find p plugins)) [
    | inl f ↦ rw f h
    | inr (ids, f) ↦ rw f (elim (Bool-cases (is_empty (remove id ids))) [
      | inl g ↦ rw (g, find-erase, e) h
      | inr g ↦ rw (g, find-put, e) h
    ])
  ])
]
