-- ===== src/Engine/Tidy/Fails.antt =====
-- What CreateBranch leaves on the host when it fails.
use pgoverlay.Base.{ℕ, false, ◌≡◌, sym, ap, ◌∙◌, inl, inr, Option, none, some, String}
use pgoverlay.Cow.{overlay}
use pgoverlay.Registry.Types.{Result, ok, err, Branch, Db}
use pgoverlay.Registry.Queries.{volume_name_used}
use pgoverlay.Engine.World.{done, Engine, World}
use pgoverlay.Engine.Actions.{◌>>=◌, pure, raise, look}
use pgoverlay.Engine.Layers.{chosen, free_layer, fresh_branch_layer}
use pgoverlay.Engine.Fresh.{free_layer_lem}
use pgoverlay.Engine.Flow.{Stays, control}
use pgoverlay.Engine.Tidy.{Orderly}

done-injective : {A : Type 0} {a b : A} → done a ≡ done b → a ≡ b
done-injective h = cc

abbrev volume_of : Result (Branch × Db) → String
volume_of (ok (b, db)) = b.rw_volume
volume_of (err x) = ""

some-injective : {a b : String} → some a ≡ some b → a ≡ b
some-injective h = cc

module _ {e : Engine} (o : Orderly e) where
  chosen_reads : (w : World e) (found : Option String) → Stays (λ v. v ≡ w) (chosen e found)
  chosen_reads w none = search control
  chosen_reads w (some v) = search control

  pub fresh_reads :
      (w : World e) (name : String) (least : ℕ)
      → Stays (λ v. v ≡ w) (fresh_branch_layer e name least)
  unfolding fresh_branch_layer
  fresh_reads w name least = search (control, chosen_reads)

  chosen_done :
      (w : World e) (v : String) (found : Option String)
      → (chosen e found w).0 ≡ done v
      → found ≡ some v
  unfolding pure raise
  chosen_done w v none h = absurd (cc)
  chosen_done w v (some x) h = ap some (done-injective h)

  -- A name that freshBranchLayer gave is one that no row has used.
  pub fresh_unused :
      (name : String) (least : ℕ) (w : World e) (v : String)
      → e.planner.backend ≡ overlay
      → (fresh_branch_layer e name least w).0 ≡ done v
      → volume_name_used v w.db ≡ false
  unfolding fresh_branch_layer ◌>>=◌ look
  fresh_unused name least w v overlaid h =
      let found : free_layer name least w.db ≡ some v =
        chosen_done w v (free_layer name least w.db) (rw overlaid at h) in
      elim (free_layer_lem name w.db least) [
        | inl (nothing, _) ↦ absurd (cc (found, nothing))
        | inr (g, this, _, _, free, _) ↦
            ap (λ x. volume_name_used x w.db) (some-injective (sym found ∙ this)) ∙ free
      ]
