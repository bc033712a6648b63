-- ===== src/Rdma/Layout.antt =====
-- Where the buffers of a connection lie in its memory.
use native.Mathlib.Nat.{suc-mul, mul-le-mul_right, div-mul-le_self, mul_assoc, mul_comm, zero-mul}
use atc2025_poby.Base.{
  ℕ, zero, suc, ◌+◌, ◌*◌, ◌/◌, ◌^◌, ◌≤◌, ◌<◌, ◌≡◌, ap₂, ◌∙◌, arith, get_or, u32,
}
use atc2025_poby.Memory.{Memory}
use atc2025_poby.Rdma.Connection.{BufPair, bufpair_at, null_bufpair, add_bufpairs, construct}

-- The pair with its buffers at these addresses.
abbrev pair : ℕ → ℕ → ℕ → BufPair
pair len send_header recv_header = record {
  send_header = send_header;
  send_cap = len;
  recv_header = recv_header;
  recv_cap = len;
}

get_or-add_bufpairs :
    (len n s r i : ℕ)
    → i < n
    → get_or (add_bufpairs len n s r) i null_bufpair
      ≡ pair len (s + i * u32 (len * 2)) (r + i * u32 (len * 2))
unfolding add_bufpairs
get_or-add_bufpairs len zero s r i h = absurd (omega arith)
get_or-add_bufpairs len (suc n) s r zero h =
    ap₂ (pair len) (omega (arith, zero-mul (u32 (len * 2))))
      (omega (arith, zero-mul (u32 (len * 2))))
get_or-add_bufpairs len (suc n) s r (suc i) h =
    get_or-add_bufpairs len n (s + u32 (len * 2)) (r + u32 (len * 2)) i (omega arith)
    ∙ ap₂ (pair len) (omega (arith, suc-mul i (u32 (len * 2))))
        (omega (arith, suc-mul i (u32 (len * 2))))

-- The size of a buffer.
abbrev pub buffer_size : ℕ → ℕ → ℕ
buffer_size size mem_num = size / (2 * mem_num)

-- Pair `i` lies at this offset.
abbrev pub offset : ℕ → ℕ → ℕ → ℕ
offset size mem_num i = i * (buffer_size size mem_num * 2)

pub bufpair_at-construct :
    (mem : Memory) (base size mem_num i : ℕ)
    → i < mem_num
    → buffer_size size mem_num < 2 ^ 31
    → bufpair_at (construct mem base size mem_num) i ≡ record {
      send_header = base + offset size mem_num i;
      send_cap = buffer_size size mem_num;
      recv_header = base + buffer_size size mem_num + offset size mem_num i;
      recv_cap = buffer_size size mem_num;
    }
unfolding construct
bufpair_at-construct mem base size mem_num i h small =
    let len : u32 (buffer_size size mem_num) ≡ buffer_size size mem_num = omega arith in
    let step : u32 (u32 (buffer_size size mem_num) * 2) ≡ buffer_size size mem_num * 2 =
      omega arith in
    get_or-add_bufpairs (u32 (buffer_size size mem_num)) mem_num base
      (base + u32 (buffer_size size mem_num)) i h
    ∙ ap₂ (λ l w. pair l (base + i * w) (base + l + i * w)) len step

within :
    (size mem_num i : ℕ) → i < mem_num → offset size mem_num i + buffer_size size mem_num * 2 ≤ size
within size mem_num i h =
    let l = buffer_size size mem_num in
    omega (
      arith,
      suc-mul i (l * 2),
      mul-le-mul_right {m = suc i} {n = mem_num} (l * 2) (omega arith),
      div-mul-le_self size (2 * mem_num),
      mul_comm mem_num (l * 2),
      mul_assoc l 2 mem_num,
    )

-- The two buffers of `a`, then the two of `b`, without overlap in the `size` bytes at `base`.
pub record Apart (base size : ℕ) (a b : BufPair) : Type 0 where
  pub first : base ≤ a.send_header
  pub pair_a : a.send_header + a.send_cap ≤ a.recv_header
  pub between : a.recv_header + a.recv_cap ≤ b.send_header
  pub pair_b : b.send_header + b.send_cap ≤ b.recv_header
  pub last : b.recv_header + b.recv_cap ≤ base + size

-- Where a buffer is under 2 GiB, the buffers of two pairs of a new connection lie apart in its memory.
pub construct-Apart :
    (mem : Memory) (base size mem_num i j : ℕ)
    → i < j
    → j < mem_num
    → buffer_size size mem_num < 2 ^ 31
    → Apart base size
        (bufpair_at (construct mem base size mem_num) i)
        (bufpair_at (construct mem base size mem_num) j)
construct-Apart mem base size mem_num i j ij jn small =
    let l = buffer_size size mem_num in
    rw
      (
        bufpair_at-construct mem base size mem_num i (omega arith) small,
        bufpair_at-construct mem base size mem_num j jn small,
      )
      (record {
        first = omega arith;
        pair_a = omega arith;
        between =
            omega (
              arith,
              suc-mul i (l * 2),
              mul-le-mul_right {m = suc i} {n = j} (l * 2) (omega arith),
            );
        pair_b = omega arith;
        last = omega (arith, within size mem_num j jn);
      })
