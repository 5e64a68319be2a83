-- ===== src/World.antt =====
-- The data of src/gestor.c (`cell_t`, `env_t`), src/gestor.h (`pos_t`) and src/launchers.h and
-- src/launchers.c (`missile_t`, `private_sem_t`, `fifo_queue_gestor_t`, `missile_gestor_t`).
-- `S` is the type of semaphores and `F` that of floats. An array is a function of its index; the code
-- that reads it tests the bounds. `blk` and `count` count threads: that no decrement meets a zero is
-- proved where they are decremented.
use patriots_rtes.Prelude.{ℕ, ℤ, Bool, update}

-- `cell_type_t`
pub data CellType : Type 0 where
  wall : CellType
  goal : CellType
  empty : CellType
  atk_missile : CellType
  def_missile : CellType

-- `cell_t`
pub record Cell : Type 0 where
  pub type : CellType
  pub value : ℤ
  pub target : ℤ

-- `private_sem_t`
pub record PrivateSem (S : Type 0) : Type 0 where
  pub sem : S
  pub count : ℕ
  pub blk : ℕ

-- `env_t`
pub record Env (S : Type 0) : Type 0 where
  pub cell : ℕ → ℕ → Cell
  pub def_points : ℕ
  pub atk_points : ℕ
  pub count : ℕ
  pub prio_sem : ℕ → PrivateSem S
  pub mutex : S

-- `pos_t`
pub record Pos : Type 0 where
  pub x : ℤ
  pub y : ℤ

-- `missile_type_t`
pub data MissileType : Type 0 where
  attacker : MissileType
  defender : MissileType

-- `missile_t`
pub record Missile (F S : Type 0) : Type 0 where
  pub x : ℤ
  pub y : ℤ
  pub partial_x : F
  pub partial_y : F
  pub angle : F
  pub speed : F
  pub index : ℤ
  pub deleted : Bool
  pub assigned_target : ℤ
  pub mutex : S
  pub missile_type : MissileType

-- `fifo_queue_gestor_t`
pub record FifoQueueGestor (S : Type 0) : Type 0 where
  pub free_index : ℤ
  pub head_index : ℤ
  pub tail_index : ℤ
  pub next : ℕ → ℤ
  pub mutex : S
  pub write_sem : PrivateSem S
  pub read_sem : PrivateSem S

-- `missile_gestor_t`
pub record MissileGestor (F S : Type 0) : Type 0 where
  pub queue : ℕ → Missile F S
  pub gestor : FifoQueueGestor S

-- The static variables `env`, `atk_gestor` and `def_gestor`.
pub record World (F S : Type 0) : Type 0 where
  pub env : Env S
  pub atk_gestor : MissileGestor F S
  pub def_gestor : MissileGestor F S

module _ {F S : Type 0} where
  -- The gestor of a kind of missiles, and the structure that an index of its queue has.
  abbrev pub gestor_of : MissileType → World F S → MissileGestor F S
  gestor_of attacker w = w.atk_gestor
  gestor_of defender w = w.def_gestor

  abbrev pub missile_at : MissileType → World F S → ℕ → Missile F S
  missile_at kind w k = (gestor_of kind w).queue k

  abbrev pub set_gestor : MissileType → MissileGestor F S → World F S → World F S
  set_gestor attacker g w = record w { atk_gestor = g }
  set_gestor defender g w = record w { def_gestor = g }

  abbrev pub set_missile : MissileType → ℕ → Missile F S → World F S → World F S
  set_missile kind k m w =
      set_gestor kind (record (gestor_of kind w) { queue = update (gestor_of kind w).queue k m }) w
