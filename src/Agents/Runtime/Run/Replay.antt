-- ===== src/Agents/Runtime/Run/Replay.antt =====
-- agents/runtime.py: a run that is asked for again after it returned.
use sep.Base.{
  ◌≡◌, refl, sym, ap, subst, ◌∙◌, String, Bool, inl, inr, Option, none, some, List, ◌∷◌, Bool-cases,
  any, find, eq_refl, arith,
}
use sep.Core.Errors.{Result, ok, err}
use sep.Store.Session.{proceed, ◌>>=◌}
use sep.Store.Session.Keeps.{>>=-eq-ok, bind-at, lift-eq-ok}
use sep.Agents.Runtime.{RunManifest, Counters, AgentProgram, AgentRuntime}
use sep.Agents.Runtime.Loop.{ResultRow, Tables, World, Models, outside, in_store, stored}
use sep.Agents.Runtime.Run.{
  RunOutcome, insert_result, same_result, Begun, recorded, fresh, result_of, recorded_in, completed,
  finish_run, begin_with, begin, wrap_up, conclude, replay_of, proceed_with, run_as, run,
  resume_or_start,
}
use sep.Agents.Runtime.Manifest.{Hashes, Surroundings, manifest_of}

module _ {W S R J : Type 0} (runtime : AgentRuntime W J) (program : AgentProgram W S R J)
    (models : Models S R) (manifest : RunManifest) where
  -- The store holds this result for the run.
  pub record Recorded (result : R) (store : Option (Tables J)) : Type 0 where
    pub tables : Tables J
    pub in_store : store ≡ some tables
    pub row : ResultRow
    pub found : find (same_result manifest.run_id) tables.results ≡ some row
    pub read : models.validate_result row.result ≡ ok result

  result_of-some :
      (row : ResultRow) (result : R) (world : World W J)
      → models.validate_result row.result ≡ ok result
      → result_of runtime program models (some row) world ≡ (ok (some result), world)
  unfolding result_of ◌>>=◌ proceed
  result_of-some row result world h = rw h refl

  recorded_in-Recorded :
      (result : R) (st : Option (Tables J)) (world : World W J)
      → Recorded result st
      → recorded_in runtime program models manifest.run_id st world ≡ (ok (some result), world)
  unfolding recorded_in
  recorded_in-Recorded result st world h =
      rw (h.in_store, recorded_in, h.found) (result_of-some h.row result world h.read)

  completed-Recorded :
      (result : R) (world : World W J)
      → Recorded result world.store
      → completed runtime program models manifest.run_id world ≡ (ok (some result), world)
  unfolding completed
  completed-Recorded result world h = recorded_in-Recorded result world.store world h

  -- A recorded run is replayed, and changes nothing.
  pub run_as-Recorded :
      (subject : String) (result : R) (world : World W J)
      → Recorded result world.store
      → run_as runtime program models manifest subject world
        ≡ some (ok (replay_of runtime program models manifest result), world)
  unfolding run_as begin begin_with proceed_with
  run_as-Recorded subject result world h = ap (proceed_with runtime program models manifest) (
      bind-at (completed runtime program models manifest.run_id)
        (begin_with runtime program models manifest subject) world world (some result)
        (completed-Recorded result world h))

  result_of-eq-some :
      (row : Option ResultRow) (result : R) (world world' : World W J)
      → result_of runtime program models row world ≡ (ok (some result), world')
      → (world' ≡ world)
        × ((r : ResultRow) × (row ≡ some r) × (models.validate_result r.result ≡ ok result))
  unfolding result_of
  result_of-eq-some none result world world' h = cc
  result_of-eq-some (some row) result world world' h =
      let (value, e, e') = lift-eq-ok (models.validate_result row.result) _ world h in
      (cc, (row, refl, e ∙ (cc)))

  recorded_in-eq-some :
      (st : Option (Tables J)) (result : R) (world world' : World W J)
      → world.store ≡ st
      → recorded_in runtime program models manifest.run_id st world ≡ (ok (some result), world')
      → Recorded result world'.store
  unfolding recorded_in
  recorded_in-eq-some none result world world' at h = cc
  recorded_in-eq-some (some tables) result world world' at h =
      let (same, (row, found, read)) = result_of-eq-some _ result world world' h in
      record {
        tables = tables;
        in_store = ap (λ (w : World W J). w.store) same ∙ at;
        row = row;
        found = found;
        read = read;
      }

  insert_result-Recorded :
      (row : ResultRow) (result : R) (tables tables' : Tables J)
      → row.run_id ≡ manifest.run_id
      → models.validate_result row.result ≡ ok result
      → insert_result row tables ≡ (ok tt, tables')
      → Recorded result (some tables')
  unfolding insert_result
  insert_result-Recorded row result tables tables' mine read h =
      elim (Bool-cases (any (same_result row.run_id) tables.results)) [
        | inl taken ↦ let e = rw taken at h in absurd (ground (arith, e))
        | inr free ↦
            let e = rw free at h in
            let e' : tables' ≡ record tables { results = row ∷ tables.results } = cc in
            subst (λ (t : Tables J). Recorded result (some t)) (sym e')
              (record {
                tables = record tables { results = row ∷ tables.results };
                in_store = refl;
                row = row;
                found = rw (mine, eq_refl manifest.run_id) refl;
                read = read;
              })
      ]

  in_store-Recorded :
      (row : ResultRow) (result : R) (st : Option (Tables J)) (world world' : World W J)
      (tables' : Tables J)
      → row.run_id ≡ manifest.run_id
      → models.validate_result row.result ≡ ok result
      → world.store ≡ st
      → in_store st (insert_result row) world ≡ (ok tt, world')
      → world'.store ≡ some tables'
      → Recorded result world'.store
  unfolding in_store
  in_store-Recorded row result none world world' tables' mine read at h kept =
      let same : world ≡ world' = cc in
      let e : ◌≡◌ {A = Option (Tables J)} none (some tables') =
        sym at ∙ (ap (λ (w : World W J). w.store) same ∙ kept) in
      cc
  in_store-Recorded row result (some tables) world world' tables' mine read at h kept =
      let written = insert_result row tables in
      let e : written ≡ (ok tt, written.1) = cc in
      let e' : world'.store ≡ some written.1 = cc in
      subst (Recorded result) (sym e')
        (insert_result-Recorded row result tables written.1 mine read e)

  module _
      (round_trip : (result : R)
        → models.validate_result (models.dump_result result) ≡ ok result) where
    wrap_up-Recorded :
        (resumed : Bool) (final : S × Counters) (world world' : World W J) (out : RunOutcome R)
        (tables' : Tables J)
        → wrap_up runtime program models manifest resumed final world ≡ (ok out, world')
        → world'.store ≡ some tables'
        → Recorded out.result world'.store
    unfolding wrap_up finish_run stored
    wrap_up-Recorded resumed (state, c) world world' out tables' h kept =
        let (result, w1, e1, h1) =
          >>=-eq-ok (outside (program.finalize state manifest.run_id c)) _ world h in
        let (u, w2, e2, h2) =
          >>=-eq-ok (finish_run runtime program models manifest.run_id result) _ w1 h1 in
        let same : w2 ≡ world' = cc in
        let e : out.result ≡ result = cc in
        subst (λ (r : R). Recorded r world'.store) (sym e)
          (in_store-Recorded _ result w1.store w1 world' tables' refl (round_trip result) refl
            (e2 ∙ ap (λ (w : World W J). (ok tt, w)) same) kept)

    conclude-Recorded :
        (resumed : Bool) (end : Option (Result (S × Counters) × World W J)) (world' : World W J)
        (out : RunOutcome R) (tables' : Tables J)
        → conclude runtime program models manifest resumed end ≡ some (ok out, world')
        → world'.store ≡ some tables'
        → Recorded out.result world'.store
    unfolding conclude
    conclude-Recorded resumed none world' out tables' h kept = cc
    conclude-Recorded resumed (some (err e, w)) world' out tables' h kept = cc
    conclude-Recorded resumed (some (ok final, w)) world' out tables' h kept =
        wrap_up-Recorded resumed final w world' out tables' (cc) kept

    proceed_with-Recorded :
        (begun : Result (Begun S R)) (w world world' : World W J) (out : RunOutcome R)
        (tables' : Tables J)
        → ((result : R) → begun ≡ ok (recorded result) → Recorded result w.store)
        → proceed_with runtime program models manifest (begun, w) ≡ some (ok out, world')
        → world'.store ≡ some tables'
        → Recorded out.result world'.store
    unfolding proceed_with
    proceed_with-Recorded (err e) w world world' out tables' found h kept = cc
    proceed_with-Recorded (ok (recorded result)) w world world' out tables' found h kept =
        let e : out.result ≡ result = cc in
        let same : w ≡ world' = cc in
        rw e (subst (λ (v : World W J). Recorded result v.store) same (found result refl))
    proceed_with-Recorded (ok (fresh started now)) w world world' out tables' found h kept =
        conclude-Recorded started.resumed _ world' out tables' h kept

    begin_with-recorded :
        (subject : String) (before : Option R) (result : R) (world w : World W J)
        → begin_with runtime program models manifest subject before world
          ≡ (ok (recorded result), w)
        → (before ≡ some result) × (w ≡ world)
    unfolding begin_with
    begin_with-recorded subject (some before) result world w h = (cc, cc)
    begin_with-recorded subject none result world w h =
        let (started, w1, e1, h1) =
          >>=-eq-ok (resume_or_start runtime program models manifest subject) _ world h in
        let (now, w2, e2, h2) = >>=-eq-ok (outside _) _ w1 h1 in cc

    begin-Recorded :
        (subject : String) (result : R) (world w : World W J)
        → begin runtime program models manifest subject world ≡ (ok (recorded result), w)
        → Recorded result w.store
    unfolding begin completed
    begin-Recorded subject result world w h =
        let (before, w1, e1, h1) =
          >>=-eq-ok (completed runtime program models manifest.run_id) _ world h in
        let (e, same) = begin_with-recorded subject before result w1 w h1 in
        recorded_in-eq-some world.store result world w refl (cc)

    pub run_as-records :
        (subject : String) (world world' : World W J) (out : RunOutcome R) (tables' : Tables J)
        → run_as runtime program models manifest subject world ≡ some (ok out, world')
        → world'.store ≡ some tables'
        → Recorded out.result world'.store
    unfolding run_as
    run_as-records subject world world' out tables' h kept =
        let begun = begin runtime program models manifest subject world in
        proceed_with-Recorded begun.0 begun.1 world world' out tables'
          (λ result e. begin-Recorded subject result world begun.1 (cc)) h kept

module _ {W S R J : Type 0} (runtime : AgentRuntime W J) (program : AgentProgram W S R J)
    (models : Models S R) (hashes : Hashes) (around : Surroundings)
    (round_trip : (result : R)
      → models.validate_result (models.dump_result result) ≡ ok result) where
  -- A run with a store has returned. Run again with the same program, subject, configuration and
  -- snapshot over the store that it left, it returns the same result, marked as replayed and with
  -- its counters at zero, and changes neither the store nor the outer world, whatever that has
  -- become: no model and no tool is called. A result that was dumped is read back as it was.
  pub run-replayed :
      (subject : String) (extra : List (String × String)) (world world' : World W J)
      (out : RunOutcome R) (tables' : Tables J)
      → run runtime program models hashes around subject extra world ≡ some (ok out, world')
      → world'.store ≡ some tables'
      → (w : W)
      → run runtime program models hashes around subject extra (record world' { outer = w })
        ≡ some (
          ok (
              replay_of runtime program models
                (manifest_of hashes around runtime program subject extra)
                out.result),
          record world' { outer = w },
        )
  unfolding run
  run-replayed subject extra world world' out tables' h kept w =
      let manifest = manifest_of hashes around runtime program subject extra in
      run_as-Recorded runtime program models manifest subject out.result
        (record world' { outer = w })
        (run_as-records runtime program models manifest round_trip subject world world' out tables'
          h kept)
