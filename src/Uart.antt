-- ===== src/Uart.antt =====
-- kernel/uart.c and kernel/uart.h: the serial port. The device answers the reads of its line status
-- register with `status i` at the i-th read; a driver function is the list of its writes.
use wl_00_rv.Prelude.{
  ℕ, zero, suc, ◌+◌, ◌*◌, ◌/◌, ◌^◌, bit_and, bit_or, ◌==◌, ◌!=◌, if◌then◌else◌, Option, none, some,
  List, [], ◌∷◌,
}

-- *UART_REG(reg) = value
pub record Write : Type 0 where
  pub reg : ℕ
  pub value : ℕ

-- UART_THR, and UART_DLL and UART_DLM, which stand in the place of UART_THR and UART_IER while the
-- bit UART_LCR_DLAB is set.
abbrev pub uart_thr : ℕ
uart_thr = 0

abbrev pub uart_dll : ℕ
uart_dll = 0

abbrev pub uart_ier : ℕ
uart_ier = 1

abbrev pub uart_dlm : ℕ
uart_dlm = 1

abbrev pub uart_fcr : ℕ
uart_fcr = 2

abbrev pub uart_lcr : ℕ
uart_lcr = 3

-- UART_LSR_RX_READY and UART_LSR_TX_IDLE
abbrev pub rx_ready : ℕ
rx_ready = 1

abbrev pub tx_idle : ℕ
tx_idle = 2 ^ 5

-- UART_CLOCK_HZ / (16 * UART_BAUD)
abbrev pub divisor : ℕ
divisor = 3686400 / (16 * 115200)

unfoldable pub uart_init : List Write
uart_init =
    record { reg = uart_ier; value = 0 }
    ∷ record { reg = uart_lcr; value = 2 ^ 7 }
    ∷ record { reg = uart_dll; value = bit_and divisor 0xff }
    ∷ record { reg = uart_dlm; value = bit_and (divisor / 2 ^ 8) 0xff }
    ∷ record { reg = uart_lcr; value = 3 }
    ∷ record { reg = uart_fcr; value = bit_or 1 (3 * 2) }
    ∷ []

-- The wait of uart_putc from the i-th read of the status on, on fuel, and its write.
unfoldable pub uart_putc : (fuel i : ℕ) (status : ℕ → ℕ) (c : ℕ) → Option (List Write)
uart_putc zero i status c = none
uart_putc (suc fuel) i status c =
    let again = uart_putc fuel (i + 1) status c in
    if bit_and (status i) tx_idle == 0
    then again
    else some (record { reg = uart_thr; value = c } ∷ [])

-- The byte that waits in UART_RBR, or -1.
unfoldable pub uart_getc : (status received : ℕ) → ℕ
uart_getc status received = if bit_and status rx_ready != 0 then received else 0xffff_ffff
