-- ===== src/Mshr/Banked.antt =====
-- libsuc/MSHR: `BankedMSHR`, some `SingleMSHR` among which the lines are shared, and a queue before them.
use sesc_src.Common.{
  ℕ, zero, suc, ◌+◌, ◌-◌, ◌/◌, ◌%◌, ◌^◌, bit_and, bit_xor, Bool, true, false, not, Option, none,
  some, List, [], ◌∷◌, ◌++◌, if◌then◌else◌,
}
use sesc_src.Common.Arrays.{update}
use sesc_src.Common.Sums.{is_empty, length}
use sesc_src.Smp.Request.{MemOp}
use sesc_src.Mshr.Types.{Event, called, destroyed, check}
use sesc_src.Mshr.Single
use sesc_src.Mshr.Single.{SingleMshr, Waiting}
use sesc_src.Mshr.Overflow
use sesc_src.Mshr.Overflow.{can_accept_request_special}

pub record BankedMshr : Type 0 where
  pub n_banks : ℕ
  pub log2_line_size : ℕ
  pub n_outs_reqs : ℕ
  pub mshr_bank : ℕ → SingleMshr
  pub overflow : List Waiting

-- `BankedMSHR(name, size, lineSize, nb, nrd, nwr, aPolicy)`
abbrev pub create : ℕ → ℕ → ℕ → ℕ → ℕ → BankedMshr
create size log2_line_size nb nrd nwr = record {
  n_banks = nb;
  log2_line_size = log2_line_size;
  n_outs_reqs = 0;
  mshr_bank = λ i. Single.create size log2_line_size nrd nwr;
  overflow = [];
}

unfoldable pub calc_bank_index : BankedMshr → ℕ → ℕ
calc_bank_index b paddr =
    let line = paddr / 2 ^ b.log2_line_size in
    bit_xor (line / 2 ^ (16 - b.log2_line_size / 2)) (bit_and line 0xffff) % b.n_banks

-- `mshrBank[calcBankIndex(paddr)]`
abbrev pub bank : BankedMshr → ℕ → SingleMshr
bank b paddr = b.mshr_bank (calc_bank_index b paddr)

abbrev pub set_bank : BankedMshr → ℕ → SingleMshr → BankedMshr
set_bank b paddr s = record b { mshr_bank = update b.mshr_bank (calc_bank_index b paddr) s }

unfoldable pub issue : BankedMshr → ℕ → MemOp → Option (Bool × BankedMshr)
issue b paddr mo =
    if not (is_empty b.overflow)
    then some (false, b)
    else elim (Single.issue (bank b paddr) paddr mo) [
      | none ↦ none
      | some (issued, s) ↦ some (
        issued,
        record (set_bank b paddr s) {
          n_outs_reqs = if issued then b.n_outs_reqs + 1 else b.n_outs_reqs;
        },
      )
    ]

-- `toOverflow`
abbrev pub to_overflow : BankedMshr → ℕ → ℕ → ℕ → MemOp → BankedMshr
to_overflow b paddr c ovflwc mo = record b {
  overflow = b.overflow ++ record { paddr = paddr; cb = c; ovflwcb = ovflwc; mo = mo } ∷ [];
}

-- A bank takes an entry, and must not put it into its own queue.
unfoldable pub bank_entry : BankedMshr → ℕ → ℕ → ℕ → MemOp → Option (BankedMshr × List Event)
bank_entry b paddr c ovflwc mo = elim (Single.add_entry (bank b paddr) paddr c ovflwc mo) [
  | none ↦ none
  | some (s, es) ↦
      check (is_empty s.overflow)
        (record (set_bank b paddr s) { n_outs_reqs = b.n_outs_reqs + 1 }, es)
]

unfoldable pub add_entry : BankedMshr → ℕ → ℕ → ℕ → MemOp → Option (BankedMshr × List Event)
unfolding bank_entry
add_entry b paddr c ovflwc mo =
    if not (is_empty b.overflow)
    then some (to_overflow b paddr c ovflwc mo, [])
    else elim (can_accept_request_special (bank b paddr) paddr mo) [
      | none ↦ none
      | some accepts ↦
          if accepts
          then bank_entry b paddr c ovflwc mo
          else some (to_overflow b paddr c ovflwc mo, [])
    ]

-- How the caches use the registers: what cannot be issued is added.
unfoldable pub request : BankedMshr → ℕ → ℕ → ℕ → MemOp → Option (Bool × BankedMshr × List Event)
unfolding issue add_entry
request b paddr c ovflwc mo = elim (issue b paddr mo) [
  | none ↦ none
  | some (issued, b1) ↦
      if issued then some (true, b1, []) else elim (add_entry b1 paddr c ovflwc mo) [
        | none ↦ none
        | some (b2, es) ↦ some (false, b2, es)
      ]
]

-- The body of the loop of `checkOverflow` for a request that its bank can accept
unfoldable pub pass_on : BankedMshr → Waiting → Option (BankedMshr × List Event)
unfolding bank_entry
pass_on b f = elim (Single.issue (bank b f.paddr) f.paddr f.mo) [
  | none ↦ none
  | some (issued, s) ↦
      if issued
      then some (
        record (set_bank b f.paddr s) { n_outs_reqs = b.n_outs_reqs + 1 },
        called f.ovflwcb ∷ destroyed f.cb ∷ [],
      )
      else bank_entry (set_bank b f.paddr s) f.paddr f.cb f.ovflwcb f.mo
]

-- The loop of `checkOverflow`; the first argument counts the rounds left.
unfoldable pub overflow_loop : ℕ → BankedMshr → Option (BankedMshr × List Event)
unfolding pass_on
overflow_loop zero b = some (b, [])
overflow_loop (suc n) b = elim b.overflow [
  | [] ↦ some (b, [])
  | f ∷ rest ↦ elim (can_accept_request_special (bank b f.paddr) f.paddr f.mo) [
    | none ↦ none
    | some accepts ↦
        if accepts
        then elim (pass_on (record b { overflow = rest }) f) [
          | none ↦ none
          | some (b1, es1) ↦ elim (overflow_loop n b1) [
            | none ↦ none
            | some (b2, es2) ↦ some (b2, es1 ++ es2)
          ]
        ]
        else some (b, [])
  ]
]

-- `checkOverflow`: each round takes one off the queue.
unfoldable pub check_overflow : BankedMshr → Option (BankedMshr × List Event)
unfolding overflow_loop
check_overflow b = overflow_loop (length b.overflow) b

unfoldable pub retire : BankedMshr → ℕ → Option (Bool × BankedMshr × List Event)
unfolding check_overflow
retire b paddr = elim (Overflow.retire (bank b paddr) paddr) [
  | none ↦ none
  | some (last, s, es1) ↦
      elim (check_overflow (record (set_bank b paddr s) { n_outs_reqs = b.n_outs_reqs - 1 })) [
        | none ↦ none
        | some (b2, es2) ↦ some (last, b2, es1 ++ es2)
      ]
]
