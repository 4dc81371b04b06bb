-- ===== src/Core/Bitpack/Kernels.antt =====
-- The kernels for one to eight bits read the same fields.
use carquet.Prelude.{ℕ, ◌+◌, ◌*◌, ◌/◌, ◌%◌, ◌^◌, ◌≡◌, arith}
use carquet.Prelude.{bit_and_mask, bit_or_low, List, All}
use carquet.Prelude.{value, digits, IsDigit, get_or-value}
use carquet.Core.Bitpack.{read_le16, read_le24, read_le32, read_le40, read_le48, read_le56}
use carquet.Core.Bitpack.{bitunpack8_1bit, bitunpack8_2bit, bitunpack8_3bit, bitunpack8_4bit}
use carquet.Core.Bitpack.{bitunpack8_5bit, bitunpack8_6bit, bitunpack8_7bit, bitunpack8_8bit}

module _ (input : List ℕ) (h : All (IsDigit 256) input) where
  abbrev word : ℕ
  word = value 256 input

  read_le16_lem : read_le16 input ≡ word % 2 ^ 16
  unfolding read_le16
  read_le16_lem =
      rw
        (
          get_or-value 256 input 0 h,
          get_or-value 256 input 1 h,
          bit_or_low 8 (word / 256 ^ 1 % 256) (word / 256 ^ 0 % 256) (omega arith),
        )
        (omega arith)

  read_le24_lem : read_le24 input ≡ word % 2 ^ 24
  unfolding read_le24
  read_le24_lem =
      rw
        (
          get_or-value 256 input 0 h,
          get_or-value 256 input 1 h,
          get_or-value 256 input 2 h,
          bit_or_low 8 (word / 256 ^ 1 % 256) (word / 256 ^ 0 % 256) (omega arith),
          bit_or_low 16 (word / 256 ^ 2 % 256) (word / 256 ^ 0 % 256 + word / 256 ^ 1 % 256 * 2 ^ 8)
              (omega arith),
        )
        (omega arith)

  read_le32_lem : read_le32 input ≡ word % 2 ^ 32
  unfolding read_le32
  read_le32_lem =
      rw
        (
          get_or-value 256 input 0 h,
          get_or-value 256 input 1 h,
          get_or-value 256 input 2 h,
          get_or-value 256 input 3 h,
          bit_or_low 8 (word / 256 ^ 1 % 256) (word / 256 ^ 0 % 256) (omega arith),
          bit_or_low 16 (word / 256 ^ 2 % 256) (word / 256 ^ 0 % 256 + word / 256 ^ 1 % 256 * 2 ^ 8)
              (omega arith),
          bit_or_low 24 (word / 256 ^ 3 % 256)
              (word / 256 ^ 0 % 256 + word / 256 ^ 1 % 256 * 2 ^ 8 + word / 256 ^ 2 % 256 * 2 ^ 16)
              (omega arith),
        )
        (omega arith)

  read_le40_lem : read_le40 input ≡ word % 2 ^ 40
  unfolding read_le40
  read_le40_lem =
      rw
        (
          get_or-value 256 input 0 h,
          get_or-value 256 input 1 h,
          get_or-value 256 input 2 h,
          get_or-value 256 input 3 h,
          get_or-value 256 input 4 h,
          bit_or_low 8 (word / 256 ^ 1 % 256) (word / 256 ^ 0 % 256) (omega arith),
          bit_or_low 16 (word / 256 ^ 2 % 256) (word / 256 ^ 0 % 256 + word / 256 ^ 1 % 256 * 2 ^ 8)
              (omega arith),
          bit_or_low 24 (word / 256 ^ 3 % 256)
              (word / 256 ^ 0 % 256 + word / 256 ^ 1 % 256 * 2 ^ 8 + word / 256 ^ 2 % 256 * 2 ^ 16)
              (omega arith),
          bit_or_low 32 (word / 256 ^ 4 % 256)
              (word / 256 ^ 0 % 256
                + word / 256 ^ 1 % 256 * 2 ^ 8
                + word / 256 ^ 2 % 256 * 2 ^ 16
                + word / 256 ^ 3 % 256 * 2 ^ 24)
              (omega arith),
        )
        (omega arith)

  read_le48_lem : read_le48 input ≡ word % 2 ^ 48
  unfolding read_le48
  read_le48_lem =
      rw
        (
          get_or-value 256 input 0 h,
          get_or-value 256 input 1 h,
          get_or-value 256 input 2 h,
          get_or-value 256 input 3 h,
          get_or-value 256 input 4 h,
          get_or-value 256 input 5 h,
          bit_or_low 8 (word / 256 ^ 1 % 256) (word / 256 ^ 0 % 256) (omega arith),
          bit_or_low 16 (word / 256 ^ 2 % 256) (word / 256 ^ 0 % 256 + word / 256 ^ 1 % 256 * 2 ^ 8)
              (omega arith),
          bit_or_low 24 (word / 256 ^ 3 % 256)
              (word / 256 ^ 0 % 256 + word / 256 ^ 1 % 256 * 2 ^ 8 + word / 256 ^ 2 % 256 * 2 ^ 16)
              (omega arith),
          bit_or_low 32 (word / 256 ^ 4 % 256)
              (word / 256 ^ 0 % 256
                + word / 256 ^ 1 % 256 * 2 ^ 8
                + word / 256 ^ 2 % 256 * 2 ^ 16
                + word / 256 ^ 3 % 256 * 2 ^ 24)
              (omega arith),
          bit_or_low 40 (word / 256 ^ 5 % 256)
              (word / 256 ^ 0 % 256
                + word / 256 ^ 1 % 256 * 2 ^ 8
                + word / 256 ^ 2 % 256 * 2 ^ 16
                + word / 256 ^ 3 % 256 * 2 ^ 24
                + word / 256 ^ 4 % 256 * 2 ^ 32)
              (omega arith),
        )
        (omega arith)

  read_le56_lem : read_le56 input ≡ word % 2 ^ 56
  unfolding read_le56
  read_le56_lem =
      rw
        (
          get_or-value 256 input 0 h,
          get_or-value 256 input 1 h,
          get_or-value 256 input 2 h,
          get_or-value 256 input 3 h,
          get_or-value 256 input 4 h,
          get_or-value 256 input 5 h,
          get_or-value 256 input 6 h,
          bit_or_low 8 (word / 256 ^ 1 % 256) (word / 256 ^ 0 % 256) (omega arith),
          bit_or_low 16 (word / 256 ^ 2 % 256) (word / 256 ^ 0 % 256 + word / 256 ^ 1 % 256 * 2 ^ 8)
              (omega arith),
          bit_or_low 24 (word / 256 ^ 3 % 256)
              (word / 256 ^ 0 % 256 + word / 256 ^ 1 % 256 * 2 ^ 8 + word / 256 ^ 2 % 256 * 2 ^ 16)
              (omega arith),
          bit_or_low 32 (word / 256 ^ 4 % 256)
              (word / 256 ^ 0 % 256
                + word / 256 ^ 1 % 256 * 2 ^ 8
                + word / 256 ^ 2 % 256 * 2 ^ 16
                + word / 256 ^ 3 % 256 * 2 ^ 24)
              (omega arith),
          bit_or_low 40 (word / 256 ^ 5 % 256)
              (word / 256 ^ 0 % 256
                + word / 256 ^ 1 % 256 * 2 ^ 8
                + word / 256 ^ 2 % 256 * 2 ^ 16
                + word / 256 ^ 3 % 256 * 2 ^ 24
                + word / 256 ^ 4 % 256 * 2 ^ 32)
              (omega arith),
          bit_or_low 48 (word / 256 ^ 6 % 256)
              (word / 256 ^ 0 % 256
                + word / 256 ^ 1 % 256 * 2 ^ 8
                + word / 256 ^ 2 % 256 * 2 ^ 16
                + word / 256 ^ 3 % 256 * 2 ^ 24
                + word / 256 ^ 4 % 256 * 2 ^ 32
                + word / 256 ^ 5 % 256 * 2 ^ 40)
              (omega arith),
        )
        (omega arith)

  pub bitunpack8_1bit_lem : bitunpack8_1bit input ≡ digits (2 ^ 1) 8 word
  unfolding bitunpack8_1bit
  bitunpack8_1bit_lem = rw (get_or-value 256 input 0 h) (
      ground (
        arith,
        bit_and_mask 1 (word / 256 ^ 0 % 256 / 2 ^ 0),
        bit_and_mask 1 (word / 256 ^ 0 % 256 / 2 ^ 1),
        bit_and_mask 1 (word / 256 ^ 0 % 256 / 2 ^ 2),
        bit_and_mask 1 (word / 256 ^ 0 % 256 / 2 ^ 3),
        bit_and_mask 1 (word / 256 ^ 0 % 256 / 2 ^ 4),
        bit_and_mask 1 (word / 256 ^ 0 % 256 / 2 ^ 5),
        bit_and_mask 1 (word / 256 ^ 0 % 256 / 2 ^ 6),
        bit_and_mask 1 (word / 256 ^ 0 % 256 / 2 ^ 7),
      ))

  pub bitunpack8_2bit_lem : bitunpack8_2bit input ≡ digits (2 ^ 2) 8 word
  unfolding bitunpack8_2bit
  bitunpack8_2bit_lem = rw (read_le16_lem) (
      ground (
        arith,
        bit_and_mask 2 (word % 2 ^ 16 / 2 ^ 0),
        bit_and_mask 2 (word % 2 ^ 16 / 2 ^ 2),
        bit_and_mask 2 (word % 2 ^ 16 / 2 ^ 4),
        bit_and_mask 2 (word % 2 ^ 16 / 2 ^ 6),
        bit_and_mask 2 (word % 2 ^ 16 / 2 ^ 8),
        bit_and_mask 2 (word % 2 ^ 16 / 2 ^ 10),
        bit_and_mask 2 (word % 2 ^ 16 / 2 ^ 12),
        bit_and_mask 2 (word % 2 ^ 16 / 2 ^ 14),
      ))

  pub bitunpack8_3bit_lem : bitunpack8_3bit input ≡ digits (2 ^ 3) 8 word
  unfolding bitunpack8_3bit
  bitunpack8_3bit_lem = rw (read_le24_lem) (
      ground (
        arith,
        bit_and_mask 3 (word % 2 ^ 24 / 2 ^ 0),
        bit_and_mask 3 (word % 2 ^ 24 / 2 ^ 3),
        bit_and_mask 3 (word % 2 ^ 24 / 2 ^ 6),
        bit_and_mask 3 (word % 2 ^ 24 / 2 ^ 9),
        bit_and_mask 3 (word % 2 ^ 24 / 2 ^ 12),
        bit_and_mask 3 (word % 2 ^ 24 / 2 ^ 15),
        bit_and_mask 3 (word % 2 ^ 24 / 2 ^ 18),
        bit_and_mask 3 (word % 2 ^ 24 / 2 ^ 21),
      ))

  pub bitunpack8_4bit_lem : bitunpack8_4bit input ≡ digits (2 ^ 4) 8 word
  unfolding bitunpack8_4bit
  bitunpack8_4bit_lem = rw (read_le32_lem) (
      ground (
        arith,
        bit_and_mask 4 (word % 2 ^ 32 / 2 ^ 0),
        bit_and_mask 4 (word % 2 ^ 32 / 2 ^ 4),
        bit_and_mask 4 (word % 2 ^ 32 / 2 ^ 8),
        bit_and_mask 4 (word % 2 ^ 32 / 2 ^ 12),
        bit_and_mask 4 (word % 2 ^ 32 / 2 ^ 16),
        bit_and_mask 4 (word % 2 ^ 32 / 2 ^ 20),
        bit_and_mask 4 (word % 2 ^ 32 / 2 ^ 24),
        bit_and_mask 4 (word % 2 ^ 32 / 2 ^ 28),
      ))

  pub bitunpack8_5bit_lem : bitunpack8_5bit input ≡ digits (2 ^ 5) 8 word
  unfolding bitunpack8_5bit
  bitunpack8_5bit_lem = rw (read_le40_lem) (
      ground (
        arith,
        bit_and_mask 5 (word % 2 ^ 40 / 2 ^ 0),
        bit_and_mask 5 (word % 2 ^ 40 / 2 ^ 5),
        bit_and_mask 5 (word % 2 ^ 40 / 2 ^ 10),
        bit_and_mask 5 (word % 2 ^ 40 / 2 ^ 15),
        bit_and_mask 5 (word % 2 ^ 40 / 2 ^ 20),
        bit_and_mask 5 (word % 2 ^ 40 / 2 ^ 25),
        bit_and_mask 5 (word % 2 ^ 40 / 2 ^ 30),
        bit_and_mask 5 (word % 2 ^ 40 / 2 ^ 35),
      ))

  pub bitunpack8_6bit_lem : bitunpack8_6bit input ≡ digits (2 ^ 6) 8 word
  unfolding bitunpack8_6bit
  bitunpack8_6bit_lem = rw (read_le48_lem) (
      ground (
        arith,
        bit_and_mask 6 (word % 2 ^ 48 / 2 ^ 0),
        bit_and_mask 6 (word % 2 ^ 48 / 2 ^ 6),
        bit_and_mask 6 (word % 2 ^ 48 / 2 ^ 12),
        bit_and_mask 6 (word % 2 ^ 48 / 2 ^ 18),
        bit_and_mask 6 (word % 2 ^ 48 / 2 ^ 24),
        bit_and_mask 6 (word % 2 ^ 48 / 2 ^ 30),
        bit_and_mask 6 (word % 2 ^ 48 / 2 ^ 36),
        bit_and_mask 6 (word % 2 ^ 48 / 2 ^ 42),
      ))

  pub bitunpack8_7bit_lem : bitunpack8_7bit input ≡ digits (2 ^ 7) 8 word
  unfolding bitunpack8_7bit
  bitunpack8_7bit_lem = rw (read_le56_lem) (
      ground (
        arith,
        bit_and_mask 7 (word % 2 ^ 56 / 2 ^ 0),
        bit_and_mask 7 (word % 2 ^ 56 / 2 ^ 7),
        bit_and_mask 7 (word % 2 ^ 56 / 2 ^ 14),
        bit_and_mask 7 (word % 2 ^ 56 / 2 ^ 21),
        bit_and_mask 7 (word % 2 ^ 56 / 2 ^ 28),
        bit_and_mask 7 (word % 2 ^ 56 / 2 ^ 35),
        bit_and_mask 7 (word % 2 ^ 56 / 2 ^ 42),
        bit_and_mask 7 (word % 2 ^ 56 / 2 ^ 49),
      ))

  pub bitunpack8_8bit_lem : bitunpack8_8bit input ≡ digits (2 ^ 8) 8 word
  unfolding bitunpack8_8bit
  bitunpack8_8bit_lem = ground (
    arith,
    get_or-value 256 input 0 h,
    get_or-value 256 input 1 h,
    get_or-value 256 input 2 h,
    get_or-value 256 input 3 h,
    get_or-value 256 input 4 h,
    get_or-value 256 input 5 h,
    get_or-value 256 input 6 h,
    get_or-value 256 input 7 h,
  )
