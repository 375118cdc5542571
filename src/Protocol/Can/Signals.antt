-- ===== src/Protocol/Can/Signals.antt =====
-- A receiver that knows a signal's identifier and offset reads the register from the frames.
use virtual_bess.Prelude.{
  ℕ, ◌+◌, ◌/◌, ◌^◌, List, [], ◌∷◌, ◌≡◌, ap, arith, All, IsU16, Option, none, some, be16, byte,
  bit_and, get_or, ◌==◌, if◌then◌else◌,
}
use virtual_bess.Prelude.Bits.{and-low_byte}
use virtual_bess.Protocol.Can.{CanFrame, build_bms_frames}

-- A signal is a place in a frame and the register whose value stands there.
pub record Signal : Type 0 where
  pub id : ℕ
  pub offset : ℕ
  pub register : ℕ

abbrev signal : ℕ → ℕ → ℕ → Signal
signal id offset register = record { id = id; offset = offset; register = register }

-- the signals of the protocol, big-endian words
abbrev pub signals : List Signal
signals =
    signal 0x1850F4E8 0 40100
    ∷ (signal 0x1850F4E8 2 40101
        ∷ (signal 0x1850F4E8 4 40102
            ∷ (signal 0x1850F4E8 6 40103
                ∷ (signal 0x1851F4E8 0 40104
                    ∷ (signal 0x1852F4E8 0 40105
                        ∷ (signal 0x1852F4E8 2 40106
                            ∷ (signal 0x1852F4E8 4 40107
                                ∷ (signal 0x1852F4E8 6 40108
                                    ∷ (signal 0x1853F4E8 0 40109
                                        ∷ (signal 0x1853F4E8 2 40110
                                            ∷ (signal 0x1853F4E8 4 40111
                                                ∷ (signal 0x1854F4E8 0 40112
                                                    ∷ (signal 0x1854F4E8 2 40113
                                                        ∷ (signal 0x1854F4E8 4 40114
                                                            ∷ (signal 0x1854F4E8 6 40115
                                                            ∷ (signal 0x1855F4E8 0 40120
                                                            ∷ (signal 0x1855F4E8 2 40121
                                                            ∷ (signal 0x1855F4E8 4 40122
                                                            ∷ (signal 0x1855F4E8 6 40123
                                                            ∷ (signal 0x1856F4E8 0 40124
                                                            ∷ (signal 0x1856F4E8 2 40126
                                                            ∷ (signal 0x1856F4E8 4 40128
                                                            ∷ (signal 0x1856F4E8 6 40134
                                                            ∷ (signal 0x1857F4E8 0 40125
                                                            ∷ (signal 0x1857F4E8 2 40127
                                                            ∷ (signal 0x1858F4E8 0 40129
                                                            ∷ (signal 0x1858F4E8 2 40131
                                                            ∷ (signal 0x1858F4E8 4 40133
                                                            ∷ (signal 0x1858F4E8 6 40135
                                                            ∷ (signal 0x1859F4E8 0 40130
                                                            ∷ (signal 0x1859F4E8 2 40132
                                                            ∷ [])))))))))))))))))))))))))))))))

-- what a receiver reads: the word at the offset of the first frame with the identifier
unfoldable pub receive : List CanFrame → ℕ → ℕ → Option ℕ
receive [] id offset = none
receive (f ∷ fs) id offset =
    if f.id == id
    then some (be16 (get_or f.bytes offset 0) (get_or f.bytes (offset + 1) 0))
    else receive fs id offset

word_bytes : (v : ℕ) → IsU16 v → be16 (byte (v / 2 ^ 8)) (byte (bit_and v 0xff)) ≡ v
word_bytes v h = omega (arith, and-low_byte v)

-- Each signal of the protocol carries its register: a receiver of the frames reads, at the
-- signal's identifier and offset, the value that the bank had. The values are 16-bit words.
pub receive-build_bms_frames :
    (r : ℕ → ℕ)
    → ((a : ℕ) → IsU16 (r a))
    → All (λ (s : Signal). receive (build_bms_frames r) s.id s.offset ≡ some (r s.register)) signals
unfolding build_bms_frames receive
receive-build_bms_frames r h =
    let word : (a : ℕ) → some (be16 (byte (r a / 2 ^ 8)) (byte (bit_and (r a) 0xff))) ≡ some (r a) =
      λ a. ap some (word_bytes (r a) (h a)) in
    (
      word 40100,
      (
        word 40101,
        (
          word 40102,
          (
            word 40103,
            (
              word 40104,
              (
                word 40105,
                (
                  word 40106,
                  (
                    word 40107,
                    (
                      word 40108,
                      (
                        word 40109,
                        (
                          word 40110,
                          (
                            word 40111,
                            (
                              word 40112,
                              (
                                word 40113,
                                (
                                  word 40114,
                                  (
                                    word 40115,
                                    (
                                      word 40120,
                                      (
                                        word 40121,
                                        (
                                          word 40122,
                                          (
                                            word 40123,
                                            (
                                              word 40124,
                                              (
                                                word 40126,
                                                (
                                                  word 40128,
                                                  (
                                                    word 40134,
                                                    (
                                                      word 40125,
                                                      (
                                                        word 40127,
                                                        (
                                                          word 40129,
                                                          (
                                                            word 40131,
                                                            (
                                                            word 40133,
                                                            (
                                                            word 40135,
                                                            (word 40130, (word 40132, tt)),
                                                            ),
                                                            ),
                                                          ),
                                                        ),
                                                      ),
                                                    ),
                                                  ),
                                                ),
                                              ),
                                            ),
                                          ),
                                        ),
                                      ),
                                    ),
                                  ),
                                ),
                              ),
                            ),
                          ),
                        ),
                      ),
                    ),
                  ),
                ),
              ),
            ),
          ),
        ),
      ),
    )
