-- ===== src/LogFabric.antt =====
-- libs/deeplog/src/dplx/dlog/log_fabric.cpp: the sinks of a log fabric and the thresholds of its
-- scopes. A sink is known by its address; what it answers to `try_sync` and `try_finalize` is an
-- argument.
pub mod Retire
mod Tests
use deeplog.Base.{
  Bool, Bool-cases, List, Option, Result, [], arith, equal, erase_if, err, false, if◌then◌else◌,
  inl, inr, none, not, ok, refl, some, true, ℕ, ◌++◌, ◌==◌, ◌||◌, ◌∷◌, ◌≡◌,
}
use mathlib.Core.List.{Perm, perm_middle}
use mathlib.Core.List.Perm
use deeplog.Errc.{Errc, unknown_sink, sink_finalization_failed}

pub record LogFabric : Type 0 where
  pub sinks : List ℕ
  pub thresholds : List (List ℕ × ℕ)
  pub default_threshold : ℕ

-- `std::partition`; of the orders that it allows within the two parts, this one keeps the given.
pub partition : (ℕ → Bool) → List ℕ → List ℕ
partition p xs = erase_if (λ x. not (p x)) xs ++ erase_if p xs

pub sync_sinks : (ℕ → Bool) → LogFabric → LogFabric
sync_sinks try_sync f = record f { sinks = partition try_sync f.sinks }

pub attach_sink : ℕ → LogFabric → LogFabric
attach_sink sink f = record f { sinks = f.sinks ++ sink ∷ [] }

-- `mSinks.erase(it)` at the first sink that is `which`.
pub erase_first : ℕ → List ℕ → List ℕ
erase_first which [] = []
erase_first which (x ∷ xs) = if x == which then xs else x ∷ erase_first which xs

pub has_sink : ℕ → List ℕ → Bool
has_sink which [] = false
has_sink which (x ∷ xs) = x == which || has_sink which xs

pub destroy_sink : (ℕ → Bool) → ℕ → LogFabric → Result Errc (Unit {0}) × LogFabric
destroy_sink try_finalize which f =
    if not (has_sink which f.sinks)
    then (err unknown_sink, f)
    else if not (try_finalize which)
    then (err sink_finalization_failed, f)
    else (ok tt, record f { sinks = erase_first which f.sinks })

pub remove_sink : ℕ → LogFabric → LogFabric
remove_sink which f = record f { sinks = erase_if (λ x. x == which) f.sinks }

-- The sink is handed to the caller.
pub release_sink : ℕ → LogFabric → ℕ × LogFabric
release_sink which f = (which, record f { sinks = erase_first which f.sinks })

pub clear_sinks : LogFabric → LogFabric
clear_sinks f = record f { sinks = [] }

pub do_default_threshold : LogFabric → ℕ
do_default_threshold f = f.default_threshold

pub find_threshold : List ℕ → List (List ℕ × ℕ) → Option ℕ
find_threshold scope [] = none
find_threshold scope ((name, level) ∷ rest) =
    let found = find_threshold scope rest in if equal name scope then some level else found

pub do_threshold : LogFabric → List ℕ → ℕ
do_threshold f scope = elim (find_threshold scope f.thresholds) [
  | some level ↦ level
  | none ↦ f.default_threshold
]

partition-Perm : (p : ℕ → Bool) (xs : List ℕ) → Perm xs (partition p xs)
unfolding partition erase_if
partition-Perm p [] = Perm.refl []
partition-Perm p (x ∷ xs) = elim (Bool-cases (p x)) [
  | inl first ↦ rw first (Perm.cons x (partition-Perm p xs))
  | inr last ↦ rw last (
      Perm.trans (Perm.cons x (partition-Perm p xs))
        (Perm.symm (perm_middle (erase_if (λ y. not (p y)) xs) (erase_if p xs))))
]

-- A sync asks every sink once and keeps all of them.
pub sync_sinks-Perm :
    (try_sync : ℕ → Bool) (f : LogFabric) → Perm f.sinks (sync_sinks try_sync f).sinks
unfolding sync_sinks partition
sync_sinks-Perm try_sync f = partition-Perm try_sync f.sinks

has-attached : (sink : ℕ) (xs : List ℕ) → has_sink sink (xs ++ sink ∷ []) ≡ true
unfolding has_sink
has-attached sink [] = ground arith
has-attached sink (x ∷ xs) = ground (arith, has-attached sink xs)

erase-attached :
    (sink : ℕ) (xs : List ℕ) → has_sink sink xs ≡ false → erase_first sink (xs ++ sink ∷ []) ≡ xs
unfolding has_sink erase_first
erase-attached sink [] h = ground arith
erase-attached sink (x ∷ xs) h = ground (arith, erase-attached sink xs)

-- A sink that is attached and destroyed again is gone, and the fabric is as before, if the sink was
-- not attached and finalizes; if it fails to, it stays attached.
destroy-attach_sink :
    (try_finalize : ℕ → Bool) (sink : ℕ) (f : LogFabric)
    → has_sink sink f.sinks ≡ false
    → let attached = attach_sink sink f in
      destroy_sink try_finalize sink attached
      ≡ (if try_finalize sink then (ok tt, f) else (err sink_finalization_failed, attached))
unfolding destroy_sink attach_sink
destroy-attach_sink try_finalize sink f h = elim (Bool-cases (try_finalize sink)) [
  | inl ends ↦ rw (has-attached sink f.sinks, ends, erase-attached sink f.sinks h) refl
  | inr fails ↦ rw (has-attached sink f.sinks, fails) refl
]
