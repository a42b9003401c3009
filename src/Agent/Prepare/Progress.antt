-- ===== src/Agent/Prepare/Progress.antt =====
-- How far the loop of releasePreparedRun in internal/agent/runtime.go has come when it ends, and what its ledger
-- says then.
use k8s.Prelude.{ℕ, false, ◌+◌, ◌≡◌, refl, ap, List, [], ◌∷◌, ◌++◌, some, All, ◌⊎◌, inl, inr}
use k8s.Prelude.Text.{Str, has_prefix}
use k8s.Errors.{Error, Checked, ok, err, Result-cases}
use k8s.Agent.Client.{SporeClient, Config, Node}
use k8s.Agent.PreparedTree.{ledger_name, ledger_temp_name, joined_to, write_cleanup_ledger}
use k8s.Agent.Prepare.{remove_entry, removable, remove_pending, one_child}
use k8s.Agent.Prepare.Removal.{prepared-keeps, prepared-Gone}

-- A path that is neither a directory nor below it.
abbrev pub Outside : Str → Str → Type 0
Outside dir path = has_prefix path dir ≡ false

-- Facts about a store of files: a spore is gone, and a file holds a ledger; and how the calls of the machine
-- and of the file system establish and keep them.
pub record PreparedFacts {W : Type 0} (config : Config W) : Type 1 where
  pub Gone : Str → W → Type 0
  pub Holds : Str → List Str → W → Type 0
  pub removed :
      (c : SporeClient W) (dir : Str) (w : W)
      → config.client ≡ some c
      → (c.remove_saved_spore (record { spore_dir = dir }) w).0 ≡ ok tt
      → Gone dir (c.remove_saved_spore (record { spore_dir = dir }) w).1
  pub removal-Gone :
      (c : SporeClient W) (dir other : Str) (w : W)
      → config.client ≡ some c
      → Gone other w
      → Gone other (c.remove_saved_spore (record { spore_dir = dir }) w).1
  pub removal-Holds :
      (c : SporeClient W) (dir path : Str) (l : List Str) (w : W)
      → config.client ≡ some c
      → Outside dir path
      → Holds path l w
      → Holds path l (c.remove_saved_spore (record { spore_dir = dir }) w).1
  pub written :
      (path : Str) (l : List Str) (w : W)
      → (config.files.write_synced path l w).0 ≡ ok tt
      → Holds path l (config.files.write_synced path l w).1
  pub write-Gone :
      (path : Str) (l : List Str) (dir : Str) (w : W)
      → Outside dir path
      → Gone dir w
      → Gone dir (config.files.write_synced path l w).1
  pub write-Holds :
      (path other : Str) (l m : List Str) (w : W)
      → (other ≡ path → ⊥)
      → Holds other m w
      → Holds other m (config.files.write_synced path l w).1
  pub renamed :
      (from to : Str) (l : List Str) (w : W)
      → Holds from l w
      → (config.files.rename from to w).0 ≡ ok tt
      → Holds to l (config.files.rename from to w).1
  pub not_renamed :
      (from to path : Str) (l : List Str) (e : Error) (w : W)
      → Holds path l w
      → (config.files.rename from to w).0 ≡ err e
      → Holds path l (config.files.rename from to w).1
  pub rename-Gone :
      (from to dir : Str) (w : W)
      → Outside dir to
      → Gone dir w
      → Gone dir (config.files.rename from to w).1
  pub sync-Gone : (path dir : Str) (w : W) → Gone dir w → Gone dir (config.files.sync_dir path w).1
  pub sync-Holds :
      (dir path : Str) (l : List Str) (w : W)
      → Holds path l w
      → Holds path l (config.files.sync_dir dir w).1

module _ {W : Type 0} (config : Config W) (ticks : ℕ) (ended : Error) (root : Str)
    (facts : PreparedFacts config)
    (two_files : joined_to config root ledger_name ≡ joined_to config root ledger_temp_name
      → ⊥) where
  abbrev pub path_of : Str → Str
  path_of rel = joined_to config root rel

  abbrev pub temp : Str
  temp = joined_to config root ledger_temp_name

  abbrev pub final : Str
  final = joined_to config root ledger_name

  -- The ledger and its temporary file do not stand below the entry.
  abbrev pub IsApart : Str → Type 0
  IsApart rel = Outside (path_of rel) temp × Outside (path_of rel) final

  abbrev pub AllGone : List Str → W → Type 0
  AllGone rels w = All (λ rel. facts.Gone (path_of rel) w) rels

  -- The pending entries are those that are gone and those that the ledger still names.
  abbrev pub Progress : List Str → (ℕ × Checked) × Node W → Type 0
  Progress pending r =
      (done rest : List Str) × (pending ≡ done ++ rest)
      × AllGone done r.1.world
      × facts.Holds final rest r.1.world
      × ((rest ≡ []) ⊎ ((e : Error) × (r.0.1 ≡ err e)))

  AllGone-map :
      (w w' : W) (rels : List Str)
      → ((dir : Str) → facts.Gone dir w → facts.Gone dir w')
      → AllGone rels w
      → AllGone rels w'
  AllGone-map w w' [] f h = tt
  AllGone-map w w' (rel ∷ rels) f h = (f (path_of rel) h.0, AllGone-map w w' rels f h.1)

  -- The removal of one entry.
  entry-Gone :
      (rel : Str) (n : Node W)
      → (remove_entry config ticks ended root rel n).0 ≡ ok tt
      → facts.Gone (path_of rel) (remove_entry config ticks ended root rel n).1.world
  unfolding remove_entry
  entry-Gone rel n =
      elim (Result-cases
        (removable config ticks ended (config.files.lstat (path_of rel) n.world))) [
          | inl (e, bad) ↦ rw (bad, remove_entry) (λ h. absurd cc)
          | inr (_, good) ↦
              rw (good, remove_entry)
                (prepared-Gone config ticks ended facts.Gone facts.removed ticks (path_of rel) n)
        ]

  module _ (P : W → Type 0) (rel : Str)
      (removal_keeps : (c : SporeClient W) (w : W)
        → config.client ≡ some c
        → P w
        → P (c.remove_saved_spore (record { spore_dir = path_of rel }) w).1) where
    entry-keeps : (n : Node W) → P n.world → P (remove_entry config ticks ended root rel n).1.world
    unfolding remove_entry
    entry-keeps n h =
        elim (Result-cases
          (removable config ticks ended (config.files.lstat (path_of rel) n.world))) [
            | inl (e, bad) ↦ rw (bad, remove_entry) h
            | inr (_, good) ↦
                rw (good, remove_entry)
                  (prepared-keeps config ticks ended P (path_of rel) removal_keeps ticks n h)
          ]

  abbrev after_write : List Str → Node W → Checked × W
  after_write l n = config.files.write_synced temp l n.world

  abbrev after_rename : List Str → Node W → Checked × W
  after_rename l n = config.files.rename temp final (after_write l n).1

  write-keeps_Gone :
      (l : List Str) (n : Node W) (dir : Str)
      → Outside dir temp
      → Outside dir final
      → facts.Gone dir n.world
      → facts.Gone dir (write_cleanup_ledger config root l n).1.world
  unfolding write_cleanup_ledger
  write-keeps_Gone l n dir o p h = elim (Result-cases (after_write l n).0) [
    | inl (e, bad) ↦ rw (bad, write_cleanup_ledger) (facts.write-Gone temp l dir n.world o h)
    | inr (_, good) ↦ elim (Result-cases (after_rename l n).0) [
      | inl (e, bad) ↦
          rw (good, bad, write_cleanup_ledger)
            (facts.rename-Gone temp final dir _ p (facts.write-Gone temp l dir n.world o h))
      | inr (_, moved) ↦
          rw (good, moved, write_cleanup_ledger)
            (facts.sync-Gone root dir _
              (facts.rename-Gone temp final dir _ p (facts.write-Gone temp l dir n.world o h)))
    ]
  ]

  -- The write of a ledger leaves it, or the one before if it fails.
  write-Ledgers :
      (l m : List Str) (n : Node W)
      → facts.Holds final m n.world
      → (facts.Holds final l (write_cleanup_ledger config root l n).1.world)
        ⊎ (((write_cleanup_ledger config root l n).0 ≡ ok tt → ⊥)
            × facts.Holds final m (write_cleanup_ledger config root l n).1.world)
  unfolding write_cleanup_ledger
  write-Ledgers l m n h = elim (Result-cases (after_write l n).0) [
    | inl (e, bad) ↦
        rw (bad, write_cleanup_ledger)
          (inr ((λ x. absurd cc), facts.write-Holds temp final l m n.world two_files h))
    | inr (_, good) ↦ elim (Result-cases (after_rename l n).0) [
      | inl (e, bad) ↦
          rw (good, bad, write_cleanup_ledger)
            (inr (
              (λ x. absurd cc),
              facts.not_renamed temp final final m e _
                  (facts.write-Holds temp final l m n.world two_files h) bad,
            ))
      | inr (_, moved) ↦
          rw (good, moved, write_cleanup_ledger)
            (inl (
              facts.sync-Holds root final l _
                (facts.renamed temp final l _ (facts.written temp l n.world good) moved)))
    ]
  ]

  pending-keeps_Gone :
      (pending : List Str) (k : ℕ) (n : Node W) (dir : Str)
      → Outside dir temp
      → Outside dir final
      → facts.Gone dir n.world
      → facts.Gone dir (remove_pending config ticks ended root pending k n).1.world
  unfolding remove_pending
  pending-keeps_Gone [] k n dir o p h = h
  pending-keeps_Gone (rel ∷ rest) k n dir o p h =
      let gone = remove_entry config ticks ended root rel n in
      let noted = write_cleanup_ledger config root rest gone.1 in
      let kept =
        entry-keeps (facts.Gone dir) rel (λ c w e. facts.removal-Gone c (path_of rel) dir w e) n
          h in
      let written = write-keeps_Gone rest gone.1 dir o p kept in
      elim (Result-cases gone.0) [
        | inl (e, bad) ↦ rw (bad, remove_pending) kept
        | inr (_, good) ↦ elim (Result-cases noted.0) [
          | inl (e, bad) ↦ rw (good, bad, remove_pending) written
          | inr (_, fine) ↦
              rw (good, fine, remove_pending)
                (pending-keeps_Gone rest (k + one_child config ticks ended rel) noted.1 dir o p
                  written)
        ]
      ]

  -- However the loop over a ledger ends, its entries are those at the front, which are gone, and
  -- those behind, which the ledger's file still holds; none is left unless it ends with an error.
  -- The ledger's file and its temporary file are two, and neither stands below an entry.
  pub remove_pending-Progress :
      (pending : List Str) (k : ℕ) (n : Node W)
      → All IsApart pending
      → facts.Holds final pending n.world
      → Progress pending (remove_pending config ticks ended root pending k n)
  unfolding remove_pending
  remove_pending-Progress [] k n a h = ([], [], refl, tt, h, inl refl)
  remove_pending-Progress (rel ∷ rest) k n a h =
      let gone = remove_entry config ticks ended root rel n in
      let noted = write_cleanup_ledger config root rest gone.1 in
      let kept =
        entry-keeps (facts.Holds final (rel ∷ rest)) rel
          (λ c w e. facts.removal-Holds c (path_of rel) final (rel ∷ rest) w e a.0.1) n h in
      elim (Result-cases gone.0) [
        | inl (e, bad) ↦ rw (bad, remove_pending) ([], rel ∷ rest, refl, tt, kept, inr (e, refl))
        | inr (_, good) ↦ elim (Result-cases noted.0) [
          | inl (e, bad) ↦
              rw (good, bad, remove_pending)
                (elim (write-Ledgers rest (rel ∷ rest) gone.1 kept) [
                  | inl new ↦ (
                    rel ∷ [],
                    rest,
                    refl,
                    (
                      write-keeps_Gone rest gone.1 (path_of rel) a.0.0 a.0.1
                          (entry-Gone rel n good),
                      tt,
                    ),
                    new,
                    inr (e, refl),
                  )
                  | inr (_, old) ↦ ([], rel ∷ rest, refl, tt, old, inr (e, refl))
                ])
          | inr (_, fine) ↦
              rw (good, fine, remove_pending)
                (elim (write-Ledgers rest (rel ∷ rest) gone.1 kept) [
                  | inr (failed, _) ↦ absurd (failed fine)
                  | inl new ↦
                      let k' = k + one_child config ticks ended rel in
                      let later = remove_pending-Progress rest k' noted.1 a.1 new in
                      (
                        rel ∷ later.0,
                        later.1,
                        ap (λ l. rel ∷ l) later.2,
                        (
                          pending-keeps_Gone rest k' noted.1 (path_of rel) a.0.0 a.0.1 (
                              write-keeps_Gone rest gone.1 (path_of rel) a.0.0 a.0.1
                                (entry-Gone rel n good)),
                          later.3,
                        ),
                        later.4,
                        later.5,
                      )
                ])
        ]
      ]
