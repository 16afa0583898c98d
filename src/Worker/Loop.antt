-- ===== src/Worker/Loop.antt =====
-- What the loop over the targets in src/worker.rs does to all of them.
use evgl_api.Base.{
  ℕ, Bool, true, false, List, [], ◌∷◌, ◌≡◌, inl, inr, refl, sym, ap, subst, ◌∙◌, arith, ◌==◌,
  Bool-cases, All, update_where, map, any, if◌then◌else◌,
}
use evgl_api.Rust.{ok}
use evgl_api.Domain.{Crates, EventDraft}
use evgl_api.Database.{Database, JobRow, TargetRow}
use evgl_api.Store.Targets.Updates.{SameTarget}
use evgl_api.Worker.{World, Env, run_target, run_targets, >>=-eq-ok}
use evgl_api.Worker.Attempts.{Changed}
use evgl_api.Worker.Targets.{IsSettled, run_target-Changed}

update-map :
    {A : Type 0} (p : A → Bool) (f : A → A) (xs : List A)
    → update_where p f xs ≡ map (λ x. if p x then f x else x) xs
update-map p f [] = refl
update-map p f (x ∷ xs) = ap (◌∷◌ (if p x then f x else x)) (update-map p f xs)

map-map_lem : {A : Type 0} (f g : A → A) (xs : List A) → map g (map f xs) ≡ map (λ x. g (f x)) xs
map-map_lem f g [] = refl
map-map_lem f g (x ∷ xs) = ap (◌∷◌ (g (f x))) (map-map_lem f g xs)

map_id_lem : {A : Type 0} (xs : List A) → map (λ x. x) xs ≡ xs
map_id_lem [] = refl
map_id_lem (x ∷ xs) = ap (◌∷◌ x) (map_id_lem xs)

module _ (C : Crates) (E : Env C) where
  abbrev pub listed : List (TargetRow C.Json) → ℕ → Bool
  listed targets id = any (λ t. t.id == id) targets

  -- Every listed target is settled, a target that is not listed is as it was, and so is the rest of
  -- the database.
  pub record AllSettled (targets : List (TargetRow C.Json)) (w w' : World C) : Type 0 where
    pub change : TargetRow C.Json → TargetRow C.Json
    pub state : w'.db ≡ record w.db { cross_post_targets = map change w.db.cross_post_targets }
    pub keeps : (t : TargetRow C.Json) → SameTarget t (change t)
    pub settled : (t : TargetRow C.Json) → listed targets t.id ≡ true → IsSettled C E (change t)
    pub others : (t : TargetRow C.Json) → listed targets t.id ≡ false → change t ≡ t

  nothing-AllSettled : (w : World C) → AllSettled [] w w
  nothing-AllSettled w = record {
    change = λ t. t;
    state =
        ap (λ (rows : List (TargetRow C.Json)). record w.db { cross_post_targets = rows })
          (sym (map_id_lem w.db.cross_post_targets));
    keeps = λ t. record {
      id = refl;
      job_id = refl;
      connection_id = refl;
      provider = refl;
      options = refl;
    };
    settled = λ t h. cc;
    others = λ t h. refl;
  }

  module _ (target : TargetRow C.Json) (targets : List (TargetRow C.Json)) (w w₁ w' : World C)
      (c : Changed C E target.id (IsSettled C E) w w₁) (rest : AllSettled targets w₁ w') where
    first_change : TargetRow C.Json → TargetRow C.Json
    first_change t = if t.id == target.id then c.change t else t

    first_change-map :
        (rows : List (TargetRow C.Json))
        → update_where (λ t. t.id == target.id) c.change rows ≡ map first_change rows
    unfolding first_change
    first_change-map rows = update-map (λ t. t.id == target.id) c.change rows

    first_change_hit :
        (t : TargetRow C.Json) → (target.id == t.id) ≡ true → first_change t ≡ c.change t
    unfolding first_change
    first_change_hit t h = ground arith

    first_change_miss : (t : TargetRow C.Json) → (target.id == t.id) ≡ false → first_change t ≡ t
    unfolding first_change
    first_change_miss t h = ground arith

    first_change-SameTarget : (t : TargetRow C.Json) → SameTarget t (first_change t)
    unfolding first_change
    first_change-SameTarget t = elim (Bool-cases (t.id == target.id)) [
      | inl here ↦ rw here (c.keeps t)
      | inr there ↦
          rw there record {
            id = refl;
            job_id = refl;
            connection_id = refl;
            provider = refl;
            options = refl;
          }
    ]

    both-IsSettled :
        (t : TargetRow C.Json)
        → listed (target ∷ targets) t.id ≡ true
        → IsSettled C E (rest.change (first_change t))
    both-IsSettled t h = elim (Bool-cases (listed targets t.id)) [
      | inl later ↦ rest.settled (first_change t) (rw ((first_change-SameTarget t).id) later)
      | inr last ↦
          rw (rest.others (first_change t) (rw ((first_change-SameTarget t).id) last))
            (rw (first_change_hit t (ground arith)) (c.holds t))
    ]

    both_others :
        (t : TargetRow C.Json)
        → listed (target ∷ targets) t.id ≡ false
        → rest.change (first_change t) ≡ t
    both_others t h =
        rest.others (first_change t) (rw ((first_change-SameTarget t).id) (ground arith))
        ∙ first_change_miss t (ground arith)

    cons-AllSettled : AllSettled (target ∷ targets) w w'
    cons-AllSettled = record {
      change = λ t. rest.change (first_change t);
      state =
          rest.state
          ∙ ap
              (λ (d : Database C.Json). record d {
                cross_post_targets = map rest.change d.cross_post_targets;
              })
              c.state
          ∙ ap (λ (rows : List (TargetRow C.Json)). record w.db { cross_post_targets = rows })
              (ap (map rest.change) (first_change-map w.db.cross_post_targets)
                ∙ map-map_lem first_change rest.change w.db.cross_post_targets);
      keeps = λ t.
          let k = first_change-SameTarget t in
          let r = rest.keeps (first_change t) in
          record {
            id = r.id ∙ k.id;
            job_id = r.job_id ∙ k.job_id;
            connection_id = r.connection_id ∙ k.connection_id;
            provider = r.provider ∙ k.provider;
            options = r.options ∙ k.options;
          };
      settled = both-IsSettled;
      others = both_others;
    }

  -- A loop over targets that returns has settled every one of them, each a target of the job, and
  -- changed nothing else in the database.
  pub run_targets-AllSettled :
      (job : JobRow) (event : EventDraft C.types) (targets : List (TargetRow C.Json))
      (w w' : World C)
      → run_targets C E job event targets w ≡ (ok tt, w')
      → All (λ t. t.job_id ≡ job.id) targets × AllSettled targets w w'
  unfolding run_targets
  run_targets-AllSettled job event [] w w' h =
      (tt, subst (AllSettled [] w) (ap (λ r. r.1) h) (nothing-AllSettled w))
  run_targets-AllSettled job event (t ∷ ts) w w' h =
      let first = run_target C E job t event in
      let (_, e, k) = >>=-eq-ok first (λ _. run_targets C E job event ts) w h in
      let (own, c) = run_target-Changed C E job t event w (first w).1 e in
      let (owns, rest) = run_targets-AllSettled job event ts (first w).1 w' k in
      ((own, owns), cons-AllSettled t ts w (first w).1 w' c rest)
