-- ===== src/SinkFrontend/Multicast.antt =====
-- core/serialized_messages.cpp: the batches that a bus delivers, handed to all sinks of a fabric.
-- A sink that fails leaves the span that the next batch is handed to (`consume_record_fn`).
use deeplog.Base.{Bool, List, [], ap, ap₂, false, map, refl, true, ℕ, ◌++◌, ◌∷◌, ◌≡◌}
use deeplog.SinkFrontend.Lifetime.{ReportsFailures, consume-inactive, consume-stops}
use mathlib.Core.Path.{subst}
use mathlib.Core.List.{Perm, perm_middle, append_assoc, append-nil, map-append, map-map}
use mathlib.Core.List.Perm
use deeplog.SerializedMessages.{MessageInfo, ParseApi, preparse_messages}
use deeplog.SinkFrontend.{Backend, SinkFrontend, is_active, try_consume}

module _ {S : Type 0} where
  -- `std::partition` by a predicate that changes the sinks, asked once for each; of the orders that
  -- it allows within the two parts, this one keeps the given.
  pub sort_in :
      Bool × SinkFrontend S
      → List (SinkFrontend S) × List (SinkFrontend S)
      → List (SinkFrontend S) × List (SinkFrontend S)
  sort_in (true, sink) (kept, dropped) = (sink ∷ kept, dropped)
  sort_in (false, sink) (kept, dropped) = (kept, sink ∷ dropped)

  pub partition :
      (SinkFrontend S → Bool × SinkFrontend S)
      → List (SinkFrontend S)
      → List (SinkFrontend S) × List (SinkFrontend S)
  partition p [] = ([], [])
  partition p (sink ∷ sinks) = sort_in (p sink) (partition p sinks)

module _ {S : Type 0} (b : Backend S) where
  -- The sinks that are handed the next batch, and those behind them.
  pub multicast_messages :
      ℕ
      → List MessageInfo
      → List (SinkFrontend S) × List (SinkFrontend S)
      → List (SinkFrontend S) × List (SinkFrontend S)
  multicast_messages binary_size parses (sinks, others) =
      let parts = partition (try_consume b binary_size parses) sinks in (parts.0, parts.1 ++ others)

  -- `consume_record_fn::operator()`
  pub consume_record :
      ParseApi
      → List (List ℕ)
      → List (SinkFrontend S) × List (SinkFrontend S)
      → List (SinkFrontend S) × List (SinkFrontend S)
  consume_record api records sinks =
      let parses = preparse_messages api records in multicast_messages parses.0 parses.1 sinks

  -- The batches of a bus, one after the other.
  pub drain :
      ParseApi
      → List (List (List ℕ))
      → List (SinkFrontend S) × List (SinkFrontend S)
      → List (SinkFrontend S) × List (SinkFrontend S)
  drain api [] sinks = sinks
  drain api (batch ∷ batches) sinks = drain api batches (consume_record api batch sinks)

  -- `simple_consume_record_fn::operator()`: one sink on its own.
  pub simple_consume_record : ParseApi → List (List ℕ) → SinkFrontend S → SinkFrontend S
  simple_consume_record api records sink =
      let parses = preparse_messages api records in (try_consume b parses.0 parses.1 sink).1

  -- One sink that is handed all batches.
  pub receive : ParseApi → List (List (List ℕ)) → SinkFrontend S → SinkFrontend S
  receive api [] sink = sink
  receive api (batch ∷ batches) sink = receive api batches (simple_consume_record api batch sink)

  -- All are inactive.
  pub Inactive : List (SinkFrontend S) → Type 0
  Inactive [] = Unit {0}
  Inactive (sink ∷ sinks) = (is_active sink ≡ false) × Inactive sinks

module _ {S : Type 0} (b : Backend S) where
  sort_in-Perm :
      (r : Bool × SinkFrontend S) (parts : List (SinkFrontend S) × List (SinkFrontend S))
      (xs : List (SinkFrontend S))
      → Perm xs (parts.0 ++ parts.1)
      → Perm (r.1 ∷ xs) ((sort_in r parts).0 ++ (sort_in r parts).1)
  unfolding sort_in
  sort_in-Perm (true, sink) (kept, dropped) xs h = Perm.cons sink h
  sort_in-Perm (false, sink) (kept, dropped) xs h =
      Perm.trans (Perm.cons sink h) (Perm.symm (perm_middle kept dropped))

  sort_in-Inactive :
      (r : Bool × SinkFrontend S) (parts : List (SinkFrontend S) × List (SinkFrontend S))
      → (r.0 ≡ false → is_active r.1 ≡ false)
      → Inactive b parts.1
      → Inactive b (sort_in r parts).1
  unfolding sort_in Inactive
  sort_in-Inactive (true, sink) (kept, dropped) h k = k
  sort_in-Inactive (false, sink) (kept, dropped) h k = (h refl, k)

  module _ (p : SinkFrontend S → Bool × SinkFrontend S)
      (stops : (sink : SinkFrontend S) → (p sink).0 ≡ false → is_active (p sink).1 ≡ false) where
    pub partition-Perm :
        (sinks : List (SinkFrontend S))
        → Perm (map (λ sink. (p sink).1) sinks) ((partition p sinks).0 ++ (partition p sinks).1)
    unfolding partition
    partition-Perm [] = Perm.refl []
    partition-Perm (sink ∷ sinks) =
        sort_in-Perm (p sink) (partition p sinks) _ (partition-Perm sinks)

    partition-Inactive : (sinks : List (SinkFrontend S)) → Inactive b (partition p sinks).1
    unfolding partition Inactive
    partition-Inactive [] = tt
    partition-Inactive (sink ∷ sinks) =
        sort_in-Inactive (p sink) (partition p sinks) (stops sink) (partition-Inactive sinks)

  Inactive-append :
      (xs ys : List (SinkFrontend S)) → Inactive b xs → Inactive b ys → Inactive b (xs ++ ys)
  unfolding Inactive
  Inactive-append [] ys h k = k
  Inactive-append (x ∷ xs) ys h k = (h.0, Inactive-append xs ys h.1 k)

module _ {S : Type 0} (b : Backend S) (api : ParseApi) where
  unchanged :
      (records : List (List ℕ)) (sinks : List (SinkFrontend S))
      → Inactive b sinks
      → map (simple_consume_record b api records) sinks ≡ sinks
  unfolding Inactive simple_consume_record
  unchanged records [] h = refl
  unchanged records (sink ∷ sinks) h =
      let parses = preparse_messages api records in
      ap₂ ◌∷◌
        (ap (λ (r : Bool × SinkFrontend S). r.1) (consume-inactive b parses.0 parses.1 sink h.0))
        (unchanged records sinks h.1)

  receive-none : (sinks : List (SinkFrontend S)) → map (receive b api []) sinks ≡ sinks
  unfolding receive
  receive-none [] = refl
  receive-none (sink ∷ sinks) = ap (λ rest. sink ∷ rest) (receive-none sinks)

module _ {S : Type 0} (b : Backend S) (law : ReportsFailures b) (api : ParseApi) where
  record-Perm :
      (records : List (List ℕ)) (sinks others : List (SinkFrontend S))
      → Inactive b others
      → let after = consume_record b api records (sinks, others) in
        Perm (map (simple_consume_record b api records) (sinks ++ others)) (after.0 ++ after.1)
        × Inactive b after.1
  unfolding consume_record multicast_messages simple_consume_record
  record-Perm records sinks others h = (
    rw
        (
          map-append (simple_consume_record b api records) sinks others,
          unchanged b api records others h,
          ← append_assoc parts.0 parts.1 others,
        )
        (Perm.append (partition-Perm b p (consume-stops b law parses.0 parses.1) sinks)
          (Perm.refl others)),
    Inactive-append b parts.1 others
        (partition-Inactive b p (consume-stops b law parses.0 parses.1) sinks) h,
  )
    where
      parses : ℕ × List MessageInfo
      parses = preparse_messages api records

      p : SinkFrontend S → Bool × SinkFrontend S
      p = try_consume b parses.0 parses.1

      parts : List (SinkFrontend S) × List (SinkFrontend S)
      parts = partition p sinks

  drain-Perm :
      (batches : List (List (List ℕ))) (sinks others : List (SinkFrontend S))
      → Inactive b others
      → let after = drain b api batches (sinks, others) in
        Perm (map (receive b api batches) (sinks ++ others)) (after.0 ++ after.1)
        × Inactive b after.1
  unfolding drain receive
  drain-Perm [] sinks others h =
      (rw (receive-none b api (sinks ++ others)) (Perm.refl (sinks ++ others)), h)
  drain-Perm (batch ∷ batches) sinks others h =
      let once = record-Perm batch sinks others h in
      let after = consume_record b api batch (sinks, others) in
      let rest = drain-Perm batches after.0 after.1 once.1 in
      (
        Perm.trans
            (subst (λ xs. Perm xs (map (receive b api batches) (after.0 ++ after.1)))
              (map-map (receive b api batches) (simple_consume_record b api batch)
                (sinks ++ others))
              (Perm.map (receive b api batches) once.0))
            rest.0,
        rest.1,
      )

  -- Handing the batches to the sinks that have not failed yet leaves every sink as if it had been
  -- handed all batches on its own, if backends report failures by a failing status: what is dropped
  -- from the span would not have changed any more. The order of the sinks may differ.
  pub drain-receive :
      (batches : List (List (List ℕ))) (sinks : List (SinkFrontend S))
      → let after = drain b api batches (sinks, []) in
        Perm (map (receive b api batches) sinks) (after.0 ++ after.1)
  unfolding Inactive
  drain-receive batches sinks =
      let after = drain b api batches (sinks, []) in
      subst (λ xs. Perm (map (receive b api batches) xs) (after.0 ++ after.1)) (append-nil sinks)
        (drain-Perm batches sinks [] tt).0
