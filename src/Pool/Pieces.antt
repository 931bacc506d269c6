-- ===== src/Pool/Pieces.antt =====
-- What a pool cut so far, and how the pieces lie to each other.
use pan_vk_kbase.Prelude.{
  ℕ, ◌+◌, ◌≡◌, ◌<◌, ◌≤◌, subst, ◌⊎◌, true, false, Option, none, some, List, [], ◌∷◌, ◌==◌, arith,
}
use pan_vk_kbase.Kernel.{Log}
use pan_vk_kbase.Kernel.Ledger.{held, memory}
use pan_vk_kbase.PrivBo.{PrivBo}
use pan_vk_kbase.Pool.{Pool}
use pan_vk_kbase.Pool.Backing.{free_count, IsFree}
use pan_vk_kbase.Pool.Room.{IsSized}

-- a part of the buffer with this address
pub record Piece : Type 0 where
  pub self : ℕ
  pub offset : ℕ
  pub size : ℕ

-- Two pieces share no byte.
abbrev pub IsApart : Piece → Piece → Type 0
IsApart a b =
    ((a.self == b.self) ≡ false) ⊎ (a.offset + a.size ≤ b.offset) ⊎ (b.offset + b.size ≤ a.offset)

abbrev pub ApartFrom : Piece → List Piece → Type 0
ApartFrom a [] = Unit {0}
ApartFrom a (c ∷ cs) = IsApart a c × ApartFrom a cs

abbrev pub AllApart : List Piece → Type 0
AllApart [] = Unit {0}
AllApart (c ∷ cs) = ApartFrom c cs × AllApart cs

-- A piece of the transient buffer lies in what was cut from it.
abbrev pub IsBelow : Piece → Option PrivBo → (offset : ℕ) → Type 0
IsBelow c none offset = Unit {0}
IsBelow c (some t) offset = ((t.self == c.self) ≡ false) ⊎ (c.offset + c.size ≤ offset)

-- A piece of a buffer that is held and in no free list.
abbrev pub IsIssued : Log → Pool → Piece → Type 0
IsIssued l p c =
    (0 < held l memory c.self)
    × (free_count c.self p ≡ 0)
    × IsBelow c p.transient_bo p.transient_offset

abbrev pub AllIssued : Log → Pool → List Piece → Type 0
AllIssued l p [] = Unit {0}
AllIssued l p (c ∷ cs) = IsIssued l p c × AllIssued l p cs

-- the transient buffer too
abbrev pub IsCurrent : Log → Pool → Option PrivBo → Type 0
IsCurrent l p none = Unit {0}
IsCurrent l p (some t) = (0 < held l memory t.self) × (free_count t.self p ≡ 0)

-- An owning pool and the pieces cut from its buffers since they were taken.
pub record IsSound (l : Log) (p : Pool) (cs : List Piece) : Type 0 where
  pub owns : p.owns_bos ≡ true
  pub sized : IsSized p
  pub free : (y : ℕ) → IsFree l p y
  pub current : IsCurrent l p p.transient_bo
  pub issued : AllIssued l p cs
  pub apart : AllApart cs

-- the pieces, with the new one
abbrev pub issue : Option PrivBo → (offset size : ℕ) → List Piece → List Piece
issue none offset size cs = cs
issue (some b) offset size cs = record { self = b.self; offset = offset; size = size } ∷ cs

-- where the memory lies
abbrev pub IsInside : Option PrivBo → (offset size : ℕ) → Type 0
IsInside none offset size = Unit {0}
IsInside (some b) offset size = offset + size ≤ b.bo.size

-- A larger part cut, with the same buffers.
pub AllIssued-grow :
    (l : Log) (p : Pool) (n : ℕ) (cs : List Piece)
    → p.transient_offset ≤ n
    → AllIssued l p cs
    → AllIssued l (record p { transient_offset = n }) cs
AllIssued-grow l p n [] h i = tt
AllIssued-grow l p n (c ∷ cs) h i = (ground (arith, i), AllIssued-grow l p n cs h i.1)

-- A piece behind all that was cut from the transient buffer
pub ApartFrom-of_issued :
    (l : Log) (p : Pool) (t : PrivBo) (n size : ℕ) (cs : List Piece)
    → p.transient_bo ≡ some t
    → p.transient_offset ≤ n
    → AllIssued l p cs
    → ApartFrom (record { self = t.self; offset = n; size = size }) cs
ApartFrom-of_issued l p t n size [] e h i = tt
ApartFrom-of_issued l p t n size (c ∷ cs) e h i =
    let b : IsBelow c (some t) p.transient_offset =
      subst (λ o. IsBelow c o p.transient_offset) e i.0.2 in
    (ground (arith, b), ApartFrom-of_issued l p t n size cs e h i.1)
