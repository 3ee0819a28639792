-- ===== src/Store/Laws.antt =====
-- The store against finite maps: each operation as an update of the two functions from identifiers
-- to records, and what the listings hold (pkg/store/memory.go).
use mathlib.Core.List.{Memᴰ}
use jit_bot.Base.{
  ◌≡◌, refl, sym, ap, ◌∙◌, ◌↔◌, Bool-cases, ◌⊎◌, inl, inr, true, List, [], ◌∷◌, Option, none, some,
  Bytes, if◌then◌else◌, str_eq, str_eq_iff, Option-cases,
}
use jit_bot.Base.Text.{bytes_eq}
use jit_bot.Base.Result.{ok, err}
use jit_bot.Base.Map.{lookup, insert, delete, lookup-insert, lookup-delete}
use jit_bot.Base.Int.{ℤ}
use jit_bot.Models.{Cluster, ClusterAccess}
use jit_bot.Store.{
  MemoryStore, cluster_exists, cluster_not_found, create_cluster, delete_cluster,
  list_cluster_access, list_user_accesses, of_user, values,
}

-- The abstract store: a partial function for each kind of record.
abbrev pub cluster_at : MemoryStore → Bytes → Option Cluster
cluster_at s id = lookup id s.clusters

abbrev pub access_at : MemoryStore → Bytes → Option ClusterAccess
access_at s id = lookup id s.accesses

-- A create succeeds exactly where the identifier is free, and then adds the record with both times
-- set to the clock and changes no other record.
pub create_cluster_refines :
    (now : ℤ) (s : MemoryStore) (c : Cluster)
    → ((t : MemoryStore) × (create_cluster now s c ≡ ok t)
        × (cluster_at s c.id ≡ none)
        × (t.accesses ≡ s.accesses)
        × ((id : Bytes)
            → cluster_at t id ≡ (
                if str_eq c.id id
                then some (record c { created_at = now; updated_at = now })
                else cluster_at s id)))
      ⊎ ((old : Cluster) × (cluster_at s c.id ≡ some old)
          × (create_cluster now s c ≡ err (cluster_exists c.id)))
unfolding create_cluster
create_cluster_refines now s c = elim (Option-cases (lookup c.id s.clusters)) [
  | inl free ↦ inl (
    record s {
      clusters = insert c.id (record c { created_at = now; updated_at = now }) s.clusters;
    },
    rw (free, create_cluster),
    free,
    refl,
    λ id. lookup-insert c.id id (record c { created_at = now; updated_at = now }) s.clusters,
  )
  | inr (old, taken) ↦ inr (old, taken, rw (taken, create_cluster))
]

-- A delete succeeds exactly where the identifier is taken, and then removes that record alone.
pub delete_cluster_refines :
    (s : MemoryStore) (id : Bytes)
    → ((t : MemoryStore) × (delete_cluster s id ≡ ok t)
        × (t.accesses ≡ s.accesses)
        × ((j : Bytes) → cluster_at t j ≡ (if str_eq id j then none else cluster_at s j)))
      ⊎ ((cluster_at s id ≡ none) × (delete_cluster s id ≡ err (cluster_not_found id)))
unfolding delete_cluster
delete_cluster_refines s id = elim (Option-cases (lookup id s.clusters)) [
  | inl free ↦ inr (free, rw (free, delete_cluster))
  | inr (old, taken) ↦ inl (
    record s { clusters = delete id s.clusters },
    rw (taken, delete_cluster),
    refl,
    λ j. lookup-delete id j s.clusters,
  )
]

of_user_sound :
    (u : Bytes) (l : List ClusterAccess) {a : ClusterAccess}
    → Memᴰ a (of_user u l)
    → Memᴰ a l × (a.user_id ≡ u)
unfolding of_user
of_user_sound u [] m = elim m [ ]
of_user_sound u (b ∷ l) {a} m = elim (Bool-cases (str_eq b.user_id u)) [
  | inl same ↦ kept same (of_user_sound u l) (rw same at m)
  | inr differs ↦ let ih = of_user_sound u l (rw differs at m) in (Memᴰ.tail ih.0, ih.1)
]
  where
    kept :
        str_eq b.user_id u ≡ true
        → (Memᴰ a (of_user u l) → Memᴰ a l × (a.user_id ≡ u))
        → Memᴰ a (b ∷ of_user u l)
        → Memᴰ a (b ∷ l) × (a.user_id ≡ u)
    kept same ih (Memᴰ.head e) =
        (Memᴰ.head e, ap (λ (x : ClusterAccess). x.user_id) e ∙ (str_eq_iff b.user_id u).0 same)
    kept same ih (Memᴰ.tail r) = (Memᴰ.tail (ih r).0, (ih r).1)

of_user_complete :
    (u : Bytes) (l : List ClusterAccess) {a : ClusterAccess}
    → Memᴰ a l
    → a.user_id ≡ u
    → Memᴰ a (of_user u l)
unfolding of_user
of_user_complete u [] m h = elim m [ ]
of_user_complete u (b ∷ l) (Memᴰ.head e) h =
    rw ((str_eq_iff b.user_id u).1 (sym (ap (λ (x : ClusterAccess). x.user_id) e) ∙ h))
      (Memᴰ.head e)
of_user_complete u (b ∷ l) (Memᴰ.tail r) h =
    let rest = of_user_complete u l r h in
    elim (Bool-cases (str_eq b.user_id u)) [
      | inl same ↦ rw same (Memᴰ.tail rest)
      | inr differs ↦ rw differs rest
    ]

-- ListUserAccesses returns exactly the accesses of the user among all that are stored.
pub list_user_accesses_exact :
    (s : MemoryStore) (u : Bytes) (a : ClusterAccess)
    → Memᴰ a (list_user_accesses s u) ↔ (Memᴰ a (list_cluster_access s) × (a.user_id ≡ u))
unfolding list_user_accesses list_cluster_access
list_user_accesses_exact s u a =
    (of_user_sound u (values s.accesses), λ h. of_user_complete u (values s.accesses) h.0 h.1)
