-- ===== src/VcardSync/ThreeWay/Property.antt =====
-- The switch of the loop, property by property: which side wins, and when there is a conflict.
use proton_carddav_sync.Base.{◌≡◌, ◌↔◌, ◌⊎◌, true, false, List, arith}
use proton_carddav_sync.Vcard.{Field}
use proton_carddav_sync.VcardSync.Fields.{fields_equal}
use proton_carddav_sync.VcardSync.ThreeWay.{Side, choose}

module _ (winner : Side) (pb cb pr cd : List Field) where
  -- An edit, an addition or a deletion on one side alone is taken over.
  pub choose-proton_change :
      fields_equal pb pr ≡ false
      → fields_equal cb cd ≡ true
      → choose winner pb cb pr cd ≡ (pr, false)
  unfolding choose
  choose-proton_change h k = rw (h, k)

  pub choose-carddav_change :
      fields_equal pb pr ≡ true
      → fields_equal cb cd ≡ false
      → choose winner pb cb pr cd ≡ (cd, false)
  unfolding choose
  choose-carddav_change h k = rw (h, k)

  -- A property is a conflict exactly when both sides changed it, and differently.
  pub conflict_iff :
      ((choose winner pb cb pr cd).1 ≡ true)
      ↔ ((fields_equal pb pr ≡ false) × (fields_equal cb cd ≡ false) × (fields_equal pr cd ≡ false))
  unfolding choose
  conflict_iff = (λ h. ground arith, λ h. ground arith)

  -- Without a conflict the policy has no say.
  pub choose_no_conflict :
      (other : Side)
      → (choose winner pb cb pr cd).1 ≡ false
      → choose other pb cb pr cd ≡ choose winner pb cb pr cd
  unfolding choose
  choose_no_conflict other h = ground arith

  -- Whatever is chosen is what one of the sides has now: the merge makes up no value.
  pub choose-current : ((choose winner pb cb pr cd).0 ≡ pr) ⊎ ((choose winner pb cb pr cd).0 ≡ cd)
  unfolding choose
  choose-current = ground arith
