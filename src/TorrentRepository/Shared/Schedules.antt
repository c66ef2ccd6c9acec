-- ===== src/TorrentRepository/Shared/Schedules.antt =====
-- What any interleaving of concurrent announces leaves.
use torrust_tracker.Prelude.{
  ℕ, ◌≡◌, ◌∙◌, ◌⊎◌, ap, refl, Bool, true, false, Option, none, some, List, [], ◌∷◌, arith,
  if◌then◌else◌, ◌==◌, inl, inr, Bool-cases,
}
use torrust_tracker.Primitives.Peer.{Peer}
use torrust_tracker.TorrentRepository.Entry.{Torrent}
use torrust_tracker.TorrentRepository.Shared.{SharedMap, torrent_of}
use torrust_tracker.TorrentRepository.Shared.Locked.{Upsert, begun, missing, holding, done, advance}
use torrust_tracker.TorrentRepository.Shared.Interleavings.{
  IsSeparate, IsCurrent, committed, apply, torrent_of-advance, IsSeparate-advance, IsCurrent-others,
  IsCurrent-advance,
}

-- The announces that are under way, each of its own thread, and a step of one of them.
abbrev pub Pool : Type 0
Pool = ℕ → Upsert

abbrev pub set : ℕ → Upsert → Pool → Pool
set i t pool j = if j == i then t else pool j

abbrev pub recorded : Option (ℕ × Peer) → List (ℕ × Peer) → List (ℕ × Peer)
recorded none es = es
recorded (some e) es = e ∷ es

-- What any interleaving of steps reaches, with what was committed, newest first.
pub data Reach (s₀ : SharedMap) (pool₀ : Pool) : SharedMap → Pool → List (ℕ × Peer) → Type 0 where
  begins : Reach s₀ pool₀ s₀ pool₀ []
  steps :
      (s : SharedMap) (pool : Pool) (es : List (ℕ × Peer)) (i : ℕ)
      → Reach s₀ pool₀ s pool es
      → Reach s₀ pool₀
          (advance s (pool i)).0
          (set i (advance s (pool i)).1 pool)
          (recorded (committed (pool i)) es)

-- The torrents after announces that are made one after another, newest first.
abbrev pub in_turn : (ℕ → Torrent) → List (ℕ × Peer) → ℕ → Torrent
in_turn start [] j = start j
in_turn start (e ∷ es) j = apply (some e) j (in_turn start es j)

in_turn-recorded :
    (start : ℕ → Torrent) (o : Option (ℕ × Peer)) (es : List (ℕ × Peer)) (j : ℕ)
    → apply o j (in_turn start es j) ≡ in_turn start (recorded o es) j
in_turn-recorded start none es j = refl
in_turn-recorded start (some e) es j = refl

-- What an announce is for, until it is done.
abbrev pub pending : Upsert → Option (ℕ × Peer)
pending (begun h p) = some (h, p)
pending (missing h p) = some (h, p)
pending (holding h a p) = some (h, p)
pending done = none

abbrev pub Has : ℕ × Peer → List (ℕ × Peer) → Type 0
Has e [] = ⊥
Has e (x ∷ es) = (x ≡ e) ⊎ Has e es

Has-recorded :
    (o : Option (ℕ × Peer)) (e : ℕ × Peer) (es : List (ℕ × Peer)) → Has e es → Has e (recorded o es)
Has-recorded none e es h = h
Has-recorded (some x) e es h = inr h

-- An announce is under way until it is committed.
pending-advance :
    (s : SharedMap) (t : Upsert) (e : ℕ × Peer) (es : List (ℕ × Peer))
    → (pending t ≡ some e) ⊎ Has e es
    → (pending (advance s t).1 ≡ some e) ⊎ Has e (recorded (committed t) es)
unfolding advance
pending-advance s (begun h p) e es (inl now) = inl (ground (arith, now))
pending-advance s (missing h p) e es (inl now) = inl now
pending-advance s (holding h a p) e es (inl now) = inr (inl (ground (arith, now)))
pending-advance s done e es (inl now) = inl now
pending-advance s (begun h p) e es (inr past) = inr past
pending-advance s (missing h p) e es (inr past) = inr past
pending-advance s (holding h a p) e es (inr past) = inr (inr past)
pending-advance s done e es (inr past) = inr past

pending-set :
    (i : ℕ) (t : Upsert) (pool : Pool) (j : ℕ) (e : ℕ × Peer) (es es' : List (ℕ × Peer))
    → ((pending (pool i) ≡ some e) ⊎ Has e es → (pending t ≡ some e) ⊎ Has e es')
    → (Has e es → Has e es')
    → (pending (pool j) ≡ some e) ⊎ Has e es
    → (pending (set i t pool j) ≡ some e) ⊎ Has e es'
pending-set i t pool j e es es' own grows h = elim (Bool-cases (j == i)) [
  | inl same ↦ rw same (own (rw (equal j i same) h))
  | inr different ↦ rw different (other h)
]
  where
    equal : (j i : ℕ) → (j == i) ≡ true → i ≡ j
    equal j i same = ground arith

    other : (pending (pool j) ≡ some e) ⊎ Has e es → (pending (pool j) ≡ some e) ⊎ Has e es'
    other (inl now) = inl now
    other (inr past) = inr (grows past)

IsCurrent-set :
    (s : SharedMap) (i : ℕ) (t : Upsert) (pool : Pool)
    → IsCurrent s t
    → ((j : ℕ) → IsCurrent s (pool j))
    → (j : ℕ) → IsCurrent s (set i t pool j)
IsCurrent-set s i t pool here there j = go (j == i)
  where
    go : (b : Bool) → IsCurrent s (if b then t else pool j)
    go true = here
    go false = there j

module _ (s₀ : SharedMap) (pool₀ : Pool) (separate : IsSeparate s₀)
    (current : (i : ℕ) → IsCurrent s₀ (pool₀ i)) where
  invariant :
      (s : SharedMap) (pool : Pool) (es : List (ℕ × Peer))
      → Reach s₀ pool₀ s pool es
      → IsSeparate s × ((i : ℕ) → IsCurrent s (pool i))
  invariant s pool es begins = (separate, current)
  invariant s' pool' es' (steps s pool es i reached) =
      let (apart, now) = invariant s pool es reached in
      (
        IsSeparate-advance s apart (pool i),
        IsCurrent-set (advance s (pool i)).0 i (advance s (pool i)).1 pool
            (IsCurrent-advance s apart (pool i))
            (λ j. IsCurrent-others s apart (pool i) (pool j) (now j)),
      )

  -- The torrents are those of the committed announces.
  torrent_of-Reach :
      (s : SharedMap) (pool : Pool) (es : List (ℕ × Peer)) (j : ℕ)
      → Reach s₀ pool₀ s pool es
      → torrent_of s j ≡ in_turn (torrent_of s₀) es j
  torrent_of-Reach s pool es j begins = refl
  torrent_of-Reach s' pool' es' j (steps s pool es i reached) =
      let (apart, now) = invariant s pool es reached in
      torrent_of-advance s apart (pool i) j (now i)
      ∙ ap (apply (committed (pool i)) j) (torrent_of-Reach s pool es j reached)
      ∙ in_turn-recorded (torrent_of s₀) (committed (pool i)) es j

  -- An announce is under way or was committed.
  done-Has :
      (s : SharedMap) (pool : Pool) (es : List (ℕ × Peer)) (i : ℕ) (e : ℕ × Peer)
      → Reach s₀ pool₀ s pool es
      → pending (pool₀ i) ≡ some e
      → (pending (pool i) ≡ some e) ⊎ Has e es
  done-Has s pool es i e begins now = inl now
  done-Has s' pool' es' j e (steps s pool es i reached) now =
      pending-set i (advance s (pool i)).1 pool j e es (recorded (committed (pool i)) es)
        (pending-advance s (pool i) e es) (Has-recorded (committed (pool i)) e es)
        (done-Has s pool es j e reached now)

  -- However the steps of concurrent announces interleave, the torrents are those that the committed
  -- announces leave when they are made one after another, in the order in which they took the mutex
  -- of their entry; and no announce is lost: each is under way or was committed. At the start the
  -- torrents have entries of their own, and each announce that holds an entry holds that of the map.
  pub Reach-in_turn :
      (s : SharedMap) (pool : Pool) (es : List (ℕ × Peer))
      → Reach s₀ pool₀ s pool es
      → ((j : ℕ) → torrent_of s j ≡ in_turn (torrent_of s₀) es j)
        × ((i : ℕ) (e : ℕ × Peer)
            → pending (pool₀ i) ≡ some e
            → (pending (pool i) ≡ some e) ⊎ Has e es)
  Reach-in_turn s pool es reached =
      (λ j. torrent_of-Reach s pool es j reached, λ i e now. done-Has s pool es i e reached now)
