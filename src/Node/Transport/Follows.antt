-- ===== src/Node/Transport/Follows.antt =====
-- Rules for what an async block may do to the state, whichever way it ends: one for each way to
-- build a block. `I cutoff n n'` relates the states before and after a block with that cut-off.
use sshe.Node.Error.{Error}
use sshe.Node.Transport.{within_deadline, ◌>>=◌, ready, continue, within, Iroh, Net, Async}
use sshe.Prelude.{inr, inl, ◌==◌, Bool-cases, ◌-◌, min, none, ok, err, some, ◌+◌, Option, Result, ℕ}

module _ {Value : Type 0} (iroh : Iroh Value) (I : ℕ → Net iroh → Net iroh → Type 0) where
  pub record Follows {A : Type 0} (m : Async iroh A) : Type 0 where
    pub at : (cutoff : ℕ) (n : Net iroh) → I cutoff n (m cutoff n).1

  pub record IsPreorder : Type 0 where
    pub same : (cutoff : ℕ) (n : Net iroh) → I cutoff n n
    pub chain : (cutoff : ℕ) (a b c : Net iroh) → I cutoff a b → I cutoff b c → I cutoff a c

  module _ (p : IsPreorder) where
    pub Follows-ready : {A : Type 0} (r : Result Error A) → Follows (ready iroh r)
    unfolding ready
    Follows-ready r = record { at = λ cutoff n. p.same cutoff n }

    continue-Follows :
        {A B : Type 0} (r : Option (Result Error A)) (f : A → Async iroh B)
        → ((a : A) → Follows (f a))
        → Follows (continue iroh r f)
    continue-Follows none f h = record { at = λ cutoff n. p.same cutoff n }
    continue-Follows (some (err e)) f h = record { at = λ cutoff n. p.same cutoff n }
    continue-Follows (some (ok a)) f h = record { at = (h a).at }

    pub Follows-bind :
        {A B : Type 0} (m : Async iroh A) (f : A → Async iroh B)
        → Follows m
        → ((a : A) → Follows (f a))
        → Follows (◌>>=◌ iroh m f)
    unfolding ◌>>=◌
    Follows-bind m f hm hf = record {
      at = λ cutoff n.
          p.chain cutoff n (m cutoff n).1 (◌>>=◌ iroh m f cutoff n).1 (hm.at cutoff n)
            ((continue-Follows (m cutoff n).0 f hf).at cutoff (m cutoff n).1);
    }

    pub within-follows :
        {A : Type 0} (limit : ℕ) (m : Async iroh A) (n : Net iroh)
        → Follows m
        → I (n.now + limit) n (within iroh limit m n).1
    unfolding within
    within-follows limit m n h = h.at (n.now + limit) n

    pub within_deadline-Follows :
        {A : Type 0} (deadline limit : ℕ) (m : Async iroh A) (n : Net iroh)
        → Follows m
        → I (n.now + min limit (deadline - n.now)) n (within_deadline iroh deadline limit m n).1
    unfolding within_deadline
    within_deadline-Follows deadline limit m n h = elim (Bool-cases (deadline - n.now == 0)) [
      | inl over ↦ rw over (p.same _ n)
      | inr more ↦ rw more (within-follows (min limit (deadline - n.now)) m n h)
    ]
