-- ===== src/App/Channels.antt =====
-- The channel that `AppState::channel` of src/state.rs gives a job is its own, and stays its own.
use evgl_api.Base.{
  ℕ, ◌<◌, ◌==◌, Bool, false, ◌≡◌, refl, sym, ◌∙◌, Option, none, some, List, [], ◌∷◌, All, any, find,
  arith, inl, inr, Bool-cases, Option-cases,
}
use evgl_api.Base.Tables.{Distinct, All-mono}
use evgl_api.Domain.{Crates}
use evgl_api.App.{Channel, AppState, channel, is_entry, job_channel}

abbrev same_channel : ℕ × Channel → ℕ × Channel → Bool
same_channel a b = a.1.id == b.1.id

-- Channels are numbered in the order in which they are created, and no two jobs share one.
pub record IsAllocated {C : Crates} (s : AppState C) : Type 0 where
  pub below : All (λ e. e.1.id < s.opened) s.job_channels
  pub own : Distinct same_channel s.job_channels

-- `channel` for each of a list of jobs
abbrev pub channels : {C : Crates} → List ℕ → AppState C → AppState C
channels [] s = s
channels (job_id ∷ job_ids) s = channels job_ids (channel job_id s).1

fresh_channel :
    (n : ℕ) (e : ℕ × Channel) (xs : List (ℕ × Channel))
    → e.1.id ≡ n
    → All (λ e. e.1.id < n) xs
    → any (same_channel e) xs ≡ false
fresh_channel n e [] h a = refl
fresh_channel n e (x ∷ xs) h a = ground (arith, fresh_channel n e xs h a.1, a.0)

module _ {C : Crates} where
  pub channel-IsAllocated :
      (job_id : ℕ) (s : AppState C) → IsAllocated s → IsAllocated (channel job_id s).1
  unfolding channel
  channel-IsAllocated job_id s h = elim (Option-cases (find (is_entry job_id) s.job_channels)) [
    | inr (e, found) ↦ rw found h
    | inl missing ↦ rw missing (record {
      below = (
        omega arith,
        All-mono _ _ s.job_channels (λ (e : ℕ × Channel) (k : e.1.id < s.opened). omega (arith, k))
            h.below,
      );
      own = (
        fresh_channel s.opened (job_id, job_channel s.opened) s.job_channels refl h.below,
        h.own,
      );
    })
  ]

  pub channel-keeps :
      (job_id : ℕ) (s : AppState C)
      → ((channel job_id s).1.db ≡ s.db) × ((channel job_id s).1.spawned ≡ s.spawned)
  unfolding channel
  channel-keeps job_id s = elim (Option-cases (find (is_entry job_id) s.job_channels)) [
    | inr (_, found) ↦ (rw found refl, rw found refl)
    | inl missing ↦ (rw missing refl, rw missing refl)
  ]

  -- The map then has an entry of the job with the channel that was returned, and keeps its others.
  channel-find :
      (job_id : ℕ) (s : AppState C)
      → (e : ℕ × Channel) × (find (is_entry job_id) (channel job_id s).1.job_channels ≡ some e)
        × ((channel job_id s).0 ≡ e.1)
  unfolding channel
  channel-find job_id s = elim (Option-cases (find (is_entry job_id) s.job_channels)) [
    | inr (e, found) ↦ (e, rw found found, rw found refl)
    | inl missing ↦ ((job_id, job_channel s.opened), rw missing (ground arith), rw missing refl)
  ]

  channel-keep :
      (job_id other : ℕ) (s : AppState C) (e : ℕ × Channel)
      → find (is_entry job_id) s.job_channels ≡ some e
      → find (is_entry job_id) (channel other s).1.job_channels ≡ some e
  unfolding channel
  channel-keep job_id other s e h = elim (Option-cases (find (is_entry other) s.job_channels)) [
    | inr (_, found) ↦ rw found h
    | inl missing ↦ rw missing (elim (Bool-cases (other == job_id)) [
      | inr differs ↦ rw differs h
      | inl same ↦
          let k : other ≡ job_id = ground arith in
          let found : find (is_entry other) s.job_channels ≡ some e = rw k h in
          let clash : ◌≡◌ {A = Option (ℕ × Channel)} none (some e) = sym missing ∙ found in cc
    ])
  ]

  channels-keep :
      (job_id : ℕ) (job_ids : List ℕ) (s : AppState C) (e : ℕ × Channel)
      → IsAllocated s
      → find (is_entry job_id) s.job_channels ≡ some e
      → IsAllocated (channels job_ids s)
        × (find (is_entry job_id) (channels job_ids s).job_channels ≡ some e)
  channels-keep job_id [] s e a h = (a, h)
  channels-keep job_id (other ∷ job_ids) s e a h =
      channels-keep job_id job_ids (channel other s).1 e (channel-IsAllocated other s a)
        (channel-keep job_id other s e h)

miss_of_find :
    (test : ℕ × Channel → Bool) (k : ℕ) (xs : List (ℕ × Channel)) (b : ℕ × Channel)
    → any test xs ≡ false
    → find (is_entry k) xs ≡ some b
    → test b ≡ false
miss_of_find test k [] b h f = cc
miss_of_find test k (x ∷ xs) b h f = ground (arith, miss_of_find test k xs b)

-- Two jobs have the same channel exactly when they are one.
found-identity :
    (j k : ℕ) (xs : List (ℕ × Channel)) (a b : ℕ × Channel)
    → Distinct same_channel xs
    → find (is_entry j) xs ≡ some a
    → find (is_entry k) xs ≡ some b
    → (b.1.id == a.1.id) ≡ (k == j)
found-identity j k [] a b d f g = cc
found-identity j k (x ∷ xs) a b d f g = ground (
  arith,
  found-identity j k xs a b,
  miss_of_find (same_channel x) j xs a,
  miss_of_find (same_channel x) k xs b,
)

-- Whatever jobs ask for their channels after a job has, a job that then asks is given that job's
-- channel if it is that job, and another channel if it is not.
pub channel_identity :
    {C : Crates} (s : AppState C)
    → IsAllocated s
    → (job_id other : ℕ) (job_ids : List ℕ)
    → ((channel other (channels job_ids (channel job_id s).1)).0.id == (channel job_id s).0.id)
      ≡ (other == job_id)
channel_identity s h job_id other job_ids =
    let (e, found, given) = channel-find job_id s in
    let s' = channels job_ids (channel job_id s).1 in
    let (a, kept) =
      channels-keep job_id job_ids (channel job_id s).1 e (channel-IsAllocated job_id s h) found in
    let (e', found', given') = channel-find other s' in
    let kept' = channel-keep job_id other s' e kept in
    rw (given, given')
      (found-identity job_id other (channel other s').1.job_channels e e'
        (channel-IsAllocated other s' a).own kept' found')
