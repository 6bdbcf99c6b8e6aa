-- ===== src/Database/Kinds.antt =====
-- The literal types of app/post/domain/entity.py.
use blog_be.Prelude.{◌≡◌, Bool, true, false, ◌↔◌, arith, Eq}

pub data PostKind : Type 0 where
  essay note guide compare : PostKind

pub data PostStatus : Type 0 where
  published draft scheduled : PostStatus

abbrev kind_beq : PostKind → PostKind → Bool
kind_beq essay essay = true
kind_beq note note = true
kind_beq guide guide = true
kind_beq compare compare = true
kind_beq _ _ = false

pub kind_beq_iff : (a b : PostKind) → (kind_beq a b ≡ true) ↔ (a ≡ b)
kind_beq_iff essay b = ground arith
kind_beq_iff note b = ground arith
kind_beq_iff guide b = ground arith
kind_beq_iff compare b = ground arith

instance abbrev pub kind_eq : Eq PostKind
kind_eq = record { beq = kind_beq; beq_iff = kind_beq_iff }

abbrev status_beq : PostStatus → PostStatus → Bool
status_beq published published = true
status_beq draft draft = true
status_beq scheduled scheduled = true
status_beq _ _ = false

pub status_beq_iff : (a b : PostStatus) → (status_beq a b ≡ true) ↔ (a ≡ b)
status_beq_iff published b = ground arith
status_beq_iff draft b = ground arith
status_beq_iff scheduled b = ground arith

instance abbrev pub status_eq : Eq PostStatus
status_eq = record { beq = status_beq; beq_iff = status_beq_iff }
