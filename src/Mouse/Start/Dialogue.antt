-- ===== src/Mouse/Start/Dialogue.antt =====
-- What `init_mouse` of src/drivers/mouse.c sends and takes.
use openyanase_kernel.Base.{
  ℕ, zero, suc, ◌≡◌, refl, ap, ◌∙◌, Bool, true, false, some, List, [], ◌∷◌, ◌==◌, if◌then◌else◌,
  Bool-cases, inl, inr, bit_and, bit_or,
}
use openyanase_kernel.Ports.{Bus, poll}
use openyanase_kernel.Mouse.Start.{
  mouse_wait, send_byte, mouse_write, mouse_read, flush, set_up, init_mouse, output_full,
  wait_timeout, input_empty,
}

-- A byte written to a port, and a byte taken from the data port.
pub data Event : Type 0 where
  sent : ℕ → ℕ → Event
  took : ℕ → Event

abbrev noted : ℕ → ℕ → List Event → List Event
noted port v l = if port == 0x60 then took v ∷ l else l

module _ {D : Type 0} (bus : Bus D) where
  -- The device with a list of the bytes that were written to its ports or taken from its data port,
  -- the last one first. A read of the status port leaves no trace.
  abbrev pub logged : Bus (D × List Event)
  logged = record {
    inb = λ port s. let (v, d1) = bus.inb port s.0 in (v, (d1, noted port v s.1));
    inw = λ port s. let (v, d1) = bus.inw port s.0 in (v, (d1, s.1));
    outb = λ port v s. (bus.outb port v s.0, sent port v ∷ s.1);
    outw = λ port v s. (bus.outw port v s.0, sent port v ∷ s.1);
  }

  poll-log :
      (test : ℕ → Bool) (timeout : ℕ) (s : D × List Event)
      → (poll logged 0x64 test timeout s).1.1 ≡ s.1
  unfolding poll
  poll-log test zero s = refl
  poll-log test (suc timeout) s = elim (Bool-cases (test (bus.inb 0x64 s.0).0)) [
    | inl passed ↦ rw passed refl
    | inr other ↦ rw other (poll-log test timeout ((bus.inb 0x64 s.0).1, s.1))
  ]

  wait-log : (type : ℕ) (s : D × List Event) → (mouse_wait logged type s).1 ≡ s.1
  unfolding mouse_wait
  wait-log type s = elim (Bool-cases (type == 0)) [
    | inl reads ↦ rw reads (poll-log output_full wait_timeout s)
    | inr writes ↦ rw writes (poll-log input_empty wait_timeout s)
  ]

  send-log :
      (port byte : ℕ) (s : D × List Event) → (send_byte logged port byte s).1 ≡ sent port byte ∷ s.1
  unfolding send_byte
  send-log port byte s = ap (λ l. sent port byte ∷ l) (wait-log 1 s)

  read-log : (s : D × List Event) → (mouse_read logged s).1.1 ≡ took (mouse_read logged s).0 ∷ s.1
  unfolding mouse_read
  read-log s = ap (λ l. took (bus.inb 0x60 (mouse_wait logged 0 s).0).0 ∷ l) (wait-log 0 s)

  write-log :
      (byte : ℕ) (s : D × List Event)
      → (mouse_write logged byte s).1 ≡ sent 0x60 byte ∷ sent 0x64 0xD4 ∷ s.1
  unfolding mouse_write
  write-log byte s =
      send-log 0x60 byte (send_byte logged 0x64 0xD4 s)
      ∙ ap (λ l. sent 0x60 byte ∷ l) (send-log 0x64 0xD4 s)

  -- The dialogue in which the controller gives `status` as its command byte, and the mouse answers
  -- twice; the last event first. The byte that is written back has the bit for the interrupt set and
  -- the bit that stops the clock clear.
  abbrev pub dialogue : ℕ → ℕ → ℕ → List Event → List Event
  dialogue status ack1 ack2 l =
      took ack2
      ∷ sent 0x60 0xF4
      ∷ sent 0x64 0xD4
      ∷ took ack1
      ∷ sent 0x60 0xF6
      ∷ sent 0x64 0xD4
      ∷ sent 0x60 (bit_and (bit_or status 0x02) 0xDF)
      ∷ sent 0x64 0x60
      ∷ took status
      ∷ sent 0x64 0x20
      ∷ sent 0x64 0xA8
      ∷ l

  set_up-log :
      (s : D × List Event)
      → (status : ℕ) × (ack1 : ℕ) × (ack2 : ℕ) × ((set_up logged s).1
          ≡ dialogue status ack1 ack2 s.1)
  unfolding set_up
  set_up-log s = (
    status,
    ack1,
    ack2,
    read-log (mouse_write logged 0xF4 acked)
        ∙ ap (λ l. took ack2 ∷ l)
            (write-log 0xF4 acked
              ∙ ap (λ l. sent 0x60 0xF4 ∷ sent 0x64 0xD4 ∷ l)
                  (read-log (mouse_write logged 0xF6 told)
                    ∙ ap (λ l. took ack1 ∷ l)
                        (write-log 0xF6 told
                          ∙ ap (λ l. sent 0x60 0xF6 ∷ sent 0x64 0xD4 ∷ l) told_log))),
  )
    where
      enabled : D × List Event
      enabled = send_byte logged 0x64 0x20 (send_byte logged 0x64 0xA8 s)

      status : ℕ
      status = (mouse_read logged enabled).0

      given : D × List Event
      given = (mouse_read logged enabled).1

      new : ℕ
      new = bit_and (bit_or status 0x02) 0xDF

      told : D × List Event
      told = send_byte logged 0x60 new (send_byte logged 0x64 0x60 given)

      acked : D × List Event
      acked = (mouse_read logged (mouse_write logged 0xF6 told)).1

      ack1 : ℕ
      ack1 = (mouse_read logged (mouse_write logged 0xF6 told)).0

      ack2 : ℕ
      ack2 = (mouse_read logged (mouse_write logged 0xF4 acked)).0

      told_log :
          told.1
          ≡ sent 0x60 new ∷ sent 0x64 0x60 ∷ took status ∷ sent 0x64 0x20 ∷ sent 0x64 0xA8 ∷ s.1
      told_log =
          send-log 0x60 new (send_byte logged 0x64 0x60 given)
          ∙ ap (λ l. sent 0x60 new ∷ l)
              (send-log 0x64 0x60 given
                ∙ ap (λ l. sent 0x64 0x60 ∷ l)
                    (read-log enabled
                      ∙ ap (λ l. took status ∷ l)
                          (send-log 0x64 0x20 (send_byte logged 0x64 0xA8 s)
                            ∙ ap (λ l. sent 0x64 0x20 ∷ l) (send-log 0x64 0xA8 s))))

  -- The controller has `k` bytes to be read and thrown away.
  abbrev pub Holds : ℕ → D → Type 0
  Holds zero d = output_full (bus.inb 0x64 d).0 ≡ false
  Holds (suc k) d =
      (output_full (bus.inb 0x64 d).0 ≡ true) × Holds k (bus.inb 0x60 (bus.inb 0x64 d).1).1

  -- The bytes that are thrown away, the last one first.
  abbrev pub thrown : ℕ → D → List Event → List Event
  thrown zero d l = l
  thrown (suc k) d l = let (v, d1) = bus.inb 0x60 (bus.inb 0x64 d).1 in thrown k d1 (took v ∷ l)

  flush-Holds :
      (k : ℕ) (d : D) (l : List Event)
      → Holds k d
      → (e : D) × (flush logged (suc k) (d, l) ≡ some (e, thrown k d l))
  unfolding flush
  flush-Holds zero d l h = ((bus.inb 0x64 d).1, rw h refl)
  flush-Holds (suc k) d l (more, h) =
      let (v, d1) = bus.inb 0x60 (bus.inb 0x64 d).1 in
      let rest = flush-Holds k d1 (took v ∷ l) h in (rest.0, rw more rest.1)

  -- With any device that has a number of bytes to be thrown away, init_mouse ends. It takes those
  -- bytes, and then these are all the bytes that it sends and takes, in this order, whatever the
  -- answers are and however often a wait runs out: the second port is switched on, the command byte
  -- is asked for and taken, and this byte is written back with the interrupt on and the clock not
  -- stopped; the mouse is given its defaults and told to report, and an answer is taken after each.
  pub init_mouse-dialogue :
      (k : ℕ) (d : D)
      → Holds k d
      → (status : ℕ) × (ack1 : ℕ) × (ack2 : ℕ) × (e : D) × (init_mouse logged (suc k) (d, [])
          ≡ some (e, dialogue status ack1 ack2 (thrown k d [])))
  unfolding init_mouse
  init_mouse-dialogue k d h =
      let f = flush-Holds k d [] h in
      let l = set_up-log (f.0, thrown k d []) in
      (
        l.0,
        l.1,
        l.2,
        (set_up logged (f.0, thrown k d [])).0,
        rw f.1 (ap (λ l. some ((set_up logged (f.0, thrown k d [])).0, l)) l.3),
      )
