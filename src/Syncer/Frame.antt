-- ===== src/Syncer/Frame.antt =====
-- What an operation on one part of the state leaves of the others.
use proton_carddav_sync.Base.{String}
use proton_carddav_sync.Base.Exec.{Exec}
use proton_carddav_sync.Base.Exec.Keeps.{Keeps}
use proton_carddav_sync.Db.{Db}
use proton_carddav_sync.Syncer.{World, on_proton, on_carddav, on_db, check_ctx, read_base}

-- A statement about Proton's state alone, and about CardDAV's.
pub record ProtonHas {P C : Type 0} (Q : P → Type 0) (w : World P C) : Type 0 where
  pub holds : Q w.proton

pub record CarddavHas {P C : Type 0} (Q : C → Type 0) (w : World P C) : Type 0 where
  pub holds : Q w.carddav

module _ {P C : Type 0} {Q : P → Type 0} where
  pub ProtonHas-check_ctx : Keeps (ProtonHas {C = C} Q) check_ctx
  unfolding check_ctx
  ProtonHas-check_ctx = record { at = λ w h. record { holds = h.holds } }

  pub ProtonHas-read_base : (uid : String) → Keeps (ProtonHas {C = C} Q) (read_base uid)
  unfolding read_base
  ProtonHas-read_base uid = record { at = λ w h. record { holds = h.holds } }

  pub ProtonHas-on_proton :
      {A : Type 0} (op : Exec P A) → Keeps Q op → Keeps (ProtonHas {C = C} Q) (on_proton op)
  unfolding on_proton
  ProtonHas-on_proton op k = record { at = λ w h. record { holds = k.at w.proton h.holds } }

  pub ProtonHas-on_carddav : {A : Type 0} (op : Exec C A) → Keeps (ProtonHas Q) (on_carddav op)
  unfolding on_carddav
  ProtonHas-on_carddav op = record { at = λ w h. record { holds = h.holds } }

  pub ProtonHas-on_db : {A : Type 0} (op : Exec Db A) → Keeps (ProtonHas {C = C} Q) (on_db op)
  unfolding on_db
  ProtonHas-on_db op = record { at = λ w h. record { holds = h.holds } }

module _ {P C : Type 0} {Q : C → Type 0} where
  pub CarddavHas-check_ctx : Keeps (CarddavHas {P = P} Q) check_ctx
  unfolding check_ctx
  CarddavHas-check_ctx = record { at = λ w h. record { holds = h.holds } }

  pub CarddavHas-read_base : (uid : String) → Keeps (CarddavHas {P = P} Q) (read_base uid)
  unfolding read_base
  CarddavHas-read_base uid = record { at = λ w h. record { holds = h.holds } }

  pub CarddavHas-on_carddav :
      {A : Type 0} (op : Exec C A) → Keeps Q op → Keeps (CarddavHas {P = P} Q) (on_carddav op)
  unfolding on_carddav
  CarddavHas-on_carddav op k = record { at = λ w h. record { holds = k.at w.carddav h.holds } }

  pub CarddavHas-on_proton : {A : Type 0} (op : Exec P A) → Keeps (CarddavHas Q) (on_proton op)
  unfolding on_proton
  CarddavHas-on_proton op = record { at = λ w h. record { holds = h.holds } }

  pub CarddavHas-on_db : {A : Type 0} (op : Exec Db A) → Keeps (CarddavHas {P = P} Q) (on_db op)
  unfolding on_db
  CarddavHas-on_db op = record { at = λ w h. record { holds = h.holds } }

pub ruleset proton_frame = (
  ProtonHas-check_ctx, ProtonHas-read_base, ProtonHas-on_proton, ProtonHas-on_carddav,
  ProtonHas-on_db,
)

pub ruleset carddav_frame = (
  CarddavHas-check_ctx, CarddavHas-read_base, CarddavHas-on_carddav, CarddavHas-on_proton,
  CarddavHas-on_db,
)
