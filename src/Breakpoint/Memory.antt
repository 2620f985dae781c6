-- ===== src/Breakpoint/Memory.antt =====
-- What enabling and disabling a breakpoint do to the bytes of the traced program.
use c_bdd.Base.{
  ℕ, zero, suc, ◌+◌, ◌-◌, ◌*◌, ◌/◌, ◌^◌, ◌<◌, ◌≡◌, true, false, arith, ◌==◌, ltb, leb, ◌&&◌,
  if◌then◌else◌,
}
use native.Mathlib.Nat.{add-zero, pow-suc}
use c_bdd.Base.Bits.{bit_and_high, bit_or_low}
use c_bdd.Os.{Os, TextMemory, byte_of, gather, overwrite}
use c_bdd.Breakpoint.{Breakpoint, int3, trap_word, enable, disable}

-- The trap word is the original word with its low byte replaced by the `int3` opcode.
pub trap_word_lem : (w : ℕ) → w < 2 ^ 64 → trap_word w ≡ 256 * (w / 256) + int3
unfolding trap_word
trap_word_lem w h = rw (bit_and_high w h) (bit_or_low (w / 256))

gather-lt : (n : ℕ) (f : ℕ → ℕ) (a : ℕ) → ((b : ℕ) → f b < 256) → gather n f a < 256 ^ n
unfolding gather
gather-lt zero f a h = omega arith
gather-lt (suc n) f a h = omega (arith, h a, gather-lt n f (a + 1) h, pow-suc 256 n)

byte_of-gather :
    (n i : ℕ) (f : ℕ → ℕ) (a : ℕ)
    → ((b : ℕ) → f b < 256)
    → i < n
    → byte_of i (gather n f a) ≡ f (a + i)
unfolding gather
byte_of-gather zero i f a h lt = elim lt [ ]
byte_of-gather (suc n) zero f a h lt = rw add-zero (omega (arith, h a))
byte_of-gather (suc n) (suc i) f a h lt =
    let rest : (f a + 256 * gather n f (a + 1)) / 256 ≡ gather n f (a + 1) = omega (arith, h a) in
    let next : a + suc i ≡ a + 1 + i = omega arith in
    rw (rest, next) (byte_of-gather n i f (a + 1) h (omega arith))

byte_of-trap_word :
    (i w : ℕ) → w < 2 ^ 64 → byte_of i (trap_word w) ≡ (if i == 0 then int3 else byte_of i w)
byte_of-trap_word zero w h = omega (arith, trap_word_lem w h)
byte_of-trap_word (suc i) w h =
    let rest : trap_word w / 256 ≡ w / 256 = omega (arith, trap_word_lem w h) in
    rw rest (ground arith)

module _ (f : ℕ → ℕ) (a : ℕ) (small : (b : ℕ) → f b < 256) where
  -- A word of `f` written into `g` brings its eight bytes, and leaves the others.
  overwrite-gather :
      (g : ℕ → ℕ) (b : ℕ)
      → overwrite g a (gather 8 f a) b ≡ (if leb a b && ltb b (a + 8) then f b else g b)
  unfolding overwrite
  overwrite-gather g b = ground (arith, byte_of-gather 8 (b - a) f a small)

  overwrite-trap_word :
      (b : ℕ) → overwrite f a (trap_word (gather 8 f a)) b ≡ (if b == a then int3 else f b)
  unfolding overwrite
  overwrite-trap_word b = ground (
    arith,
    byte_of-trap_word (b - a) (gather 8 f a) (gather-lt 8 f a small),
    byte_of-gather 8 (b - a) f a small,
  )

-- `enable` does not move a breakpoint.
pub enable-target :
    {W : Type 0} (os : Os W) (bp : Breakpoint) (w : W)
    → ((enable os bp w).1.program_pid ≡ bp.program_pid) × ((enable os bp w).1.address ≡ bp.address)
unfolding enable
enable-target os bp w = ground arith

-- The law of a successful write, byte by byte.
poked_at :
    {W : Type 0} {os : Os W} (memory : TextMemory os) (pid a v : ℕ) (w : W) (b : ℕ)
    → (os.poke_text pid a v w).0 ≡ true
    → memory.byte pid (os.poke_text pid a v w).1 b ≡ overwrite (memory.byte pid w) a v b
poked_at memory pid a v w b h = memory.poked pid a v w h b

module _ {W : Type 0} {os : Os W} (memory : TextMemory os) (bp : Breakpoint) (w : W) where
  open bp use {program_pid, address}
  open memory use {byte, byte_lt, peeked}

  -- Where the write succeeds, `enable` reports success, keeps the word it found as the original,
  -- and puts `int3` at the breakpoint's address. No other byte of the program changes.
  pub enable-byte :
      (enable os bp w).0 ≡ true
      → ((enable os bp w).1.enabled ≡ true)
        × ((enable os bp w).1.original ≡ gather 8 (byte program_pid w) address)
        × ((b : ℕ)
            → byte program_pid (enable os bp w).2 b
              ≡ (if b == address then int3 else byte program_pid w b))
  unfolding enable
  enable-byte h = (
    ground arith,
    ground (arith, peeked program_pid address w),
    λ b. ground (
      arith,
      peeked program_pid address w,
      poked_at memory program_pid address (trap_word (os.peek_text program_pid address w)) w b,
      overwrite-trap_word (byte program_pid w) address (byte_lt program_pid w) b,
    ),
  )

module _ {W : Type 0} {os : Os W} (memory : TextMemory os) (bp : Breakpoint) (w : W) where
  open bp use {program_pid, address, original}
  open memory use {byte}

  -- Where the write succeeds, `disable` puts back the eight bytes that the original word was read
  -- from, whatever has been written there since, and leaves all other bytes alone and the object
  -- as it was. Where the write fails, the object is as it was but for `enabled`, which becomes false.
  pub disable-byte :
      (f : ℕ → ℕ)
      → ((b : ℕ) → f b < 256)
      → original ≡ gather 8 f address
      → ((disable os bp w).0 ≡ (
          if (os.poke_text program_pid address original w).0
          then bp
          else record bp { enabled = false }))
        × ((os.poke_text program_pid address original w).0 ≡ true
            → (b : ℕ)
            → byte program_pid (disable os bp w).1 b
              ≡ (if leb address b && ltb b (address + 8) then f b else byte program_pid w b))
  unfolding disable
  disable-byte f small e = (
    ground arith,
    λ h b. ground (
      arith,
      poked_at memory program_pid address original w b,
      overwrite-gather f address small (byte program_pid w) b,
    ),
  )

module _ {W : Type 0} {os : Os W} (memory : TextMemory os) (bp : Breakpoint) (w : W) where
  open bp use {program_pid, address}
  open memory use {byte, byte_lt}

  -- A breakpoint that is enabled and then disabled, both writes succeeding, leaves no trace: every
  -- byte of the program is what it was.
  pub disable-enable :
      (enable os bp w).0 ≡ true
      → let (_, armed, w') = enable os bp w in
        (os.poke_text program_pid address armed.original w').0 ≡ true
        → (b : ℕ) → byte program_pid (disable os armed w').1 b ≡ byte program_pid w b
  disable-enable h k b =
      let (_, kept, set) = enable-byte memory bp w h in
      let back =
        (disable-byte memory armed w' (byte program_pid w) (byte_lt program_pid w)
          (rw kept_address kept)).1 in
      ground (arith, set b, rw (kept_pid, kept_address) at (back (rw (kept_pid, kept_address) k) b))
    where
      armed : Breakpoint
      armed = (enable os bp w).1

      w' : W
      w' = (enable os bp w).2

      kept_address : armed.address ≡ address
      kept_address = (enable-target os bp w).1

      kept_pid : armed.program_pid ≡ program_pid
      kept_pid = (enable-target os bp w).0
