-- ===== src/Server/Consumers/Names.antt =====
-- What a rename or a removal in the consumer directory of internal/testserver/testserver.go leaves of the
-- names on an object.
use mathlib.Core.Option
use hush_hush_cli.Prelude.{
  String, ◌≡◌, ◌≢◌, refl, true, false, ◌||◌, ◌&&◌, not, Option, none, some, List, [], ◌∷◌, arith,
  eq_iff, eq_refl, ◌==◌, any, if◌then◌else◌, Bool-cases, inl, inr, ok,
}
use hush_hush_cli.Prelude.Text.{member}
use hush_hush_cli.Prelude.Map.{
  lookup, has, put, remove, map_values, lookup-map_values, lookup-remove, lookup-put,
}
use hush_hush_cli.Prelude.Members.{Unique, member-select}
use hush_hush_cli.Server.Types.{Object, Store}
use hush_hush_cli.Server.Consumers.{
  rename_from, rename_used_by, remove_used_by, delete_consumer, update_consumer, rename_consumer,
  strip, rename_in, update_entry, consumer_entry,
}

-- The name that a name becomes.
abbrev pub changed : String → String → String → String
changed from to n = if n == from then to else n

rename_from-names :
    (seen : List String) (from to : String) (names : List String) (x : String)
    → member x (rename_from seen from to names)
      ≡ (any (λ n. changed from to n == x) names && not (member x seen))
unfolding rename_from member
rename_from-names seen from to [] x = refl
rename_from-names seen from to (n ∷ names) x = ground (
  arith,
  eq_iff (changed from to n) x,
  rename_from-names seen from to names x,
  rename_from-names (changed from to n ∷ seen) from to names x,
)

rename_from-Unique :
    (seen : List String) (from to : String) (names : List String)
    → Unique (rename_from seen from to names)
unfolding rename_from member
rename_from-Unique seen from to [] = tt
rename_from-Unique seen from to (n ∷ names) = elim (Bool-cases (member (changed from to n) seen)) [
  | inl old ↦ rw old (rename_from-Unique seen from to names)
  | inr new ↦ rw new (
    ground (
      arith,
      eq_refl (changed from to n),
      rename_from-names (changed from to n ∷ seen) from to names (changed from to n),
    ),
    rename_from-Unique (changed from to n ∷ seen) from to names,
  )
]

any-changed :
    (from to x : String) (names : List String)
    → from ≢ to
    → any (λ n. changed from to n == x) names ≡ (
        if x == from
        then false
        else if x == to
        then member from names || member to names
        else member x names)
unfolding member
any-changed from to x [] apart = ground arith
any-changed from to x (n ∷ names) apart = ground (
  arith,
  eq_iff n from,
  eq_iff n to,
  eq_iff to x,
  eq_iff n x,
  eq_iff x from,
  eq_iff x to,
  any-changed from to x names apart,
)

-- A rename to another name leaves no name twice and the old name nowhere. The new name is there if either
-- was, and every other name is there as before.
pub rename_used_by-names :
    (used_by : List String) (from to : String)
    → from ≢ to
    → Unique (rename_used_by used_by from to)
      × ((x : String)
          → member x (rename_used_by used_by from to) ≡ (
              if x == from
              then false
              else if x == to
              then member from used_by || member to used_by
              else member x used_by))
unfolding rename_used_by member
rename_used_by-names used_by from to apart = (
  rename_from-Unique [] from to used_by,
  λ x. ground (arith, rename_from-names [] from to used_by x, any-changed from to x used_by apart),
)

-- A removal drops the name, and keeps the others.
remove_used_by-names :
    (used_by : List String) (name x : String)
    → member x (remove_used_by used_by name) ≡ (member x used_by && not (x == name))
unfolding remove_used_by
remove_used_by-names used_by name x = member-select (λ n. not (n == name)) x used_by

-- Deleting a consumer that is in the directory takes it out, and each name's first object loses
-- that name and no other. Other consumers stay in the directory. Further variants are left as they
-- were, with the deleted name where they had it.
pub delete_consumer-names :
    (name : String) (s : Store)
    → has name s.consumers ≡ true
    → (t : Store) × (delete_consumer name s ≡ ok t)
      × ((j : String) → lookup j t.consumers ≡ (if name == j then none else lookup j s.consumers))
      × ((k : String) → lookup k t.objects ≡ Option.map (strip name) (lookup k s.objects))
      × ((o : Object) (x : String)
          → member x (strip name o).used_by ≡ (member x o.used_by && not (x == name)))
      × (t.extra ≡ s.extra)
unfolding delete_consumer strip
delete_consumer-names name s known = (
  record s { consumers = remove name s.consumers; objects = map_values (strip name) s.objects },
  rw known,
  λ j. lookup-remove name j s.consumers,
  λ k. lookup-map_values (strip name) k s.objects,
  λ o x. remove_used_by-names o.used_by name x,
  refl,
)

-- Merging a consumer into another name that is in the directory with a key keeps that key; the old
-- name leaves the directory, and each name's first object names the target in its place.
pub update_consumer-merge :
    (name target key : String) (old : Option String) (s : Store)
    → name ≢ target
    → lookup name s.consumers ≡ some old
    → lookup target s.consumers ≡ some (some key)
    → (t : Store) × (update_consumer name (some target) none s ≡ ok (consumer_entry target t, t))
      × (lookup target t.consumers ≡ some (some key))
      × (lookup name t.consumers ≡ none)
      × ((k : String)
          → lookup k t.objects ≡ Option.map (rename_in name target) (lookup k s.objects))
      × ((o : Object)
          → (member name (rename_in name target o).used_by ≡ false)
            × (member target (rename_in name target o).used_by
                ≡ (member name o.used_by || member target o.used_by)))
unfolding update_consumer update_entry rename_consumer rename_in
update_consumer-merge name target key old s apart known has_key =
    let directory = put target (some key) (remove name s.consumers) in
    (
      record s { consumers = directory; objects = map_values (rename_in name target) s.objects },
      rw (known, has_key),
      rw (lookup-put target target (some key) (remove name s.consumers), eq_refl target),
      ground (
        arith,
        eq_iff target name,
        lookup-put target name (some key) (remove name s.consumers),
        lookup-remove name name s.consumers,
        eq_refl name,
      ),
      λ k. lookup-map_values (rename_in name target) k s.objects,
      λ o.
          let (once, names) = rename_used_by-names o.used_by name target apart in
          (
            ground (arith, names name, eq_refl name),
            ground (arith, names target, eq_refl target, eq_iff target name),
          ),
    )
