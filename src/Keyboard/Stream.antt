-- ===== src/Keyboard/Stream.antt =====
-- kernel/dev/keyboard.cpp: whole sequences of key events, from the bytes of the port to the queue and
-- the modifiers.
use xivix.Base.{
  ℕ, ◌<◌, ◌≡◌, refl, ap, ◌∙◌, List, [], ◌∷◌, ◌++◌, true, false, arith, ◌==◌, if◌then◌else◌, ◌≢◌,
  Bool-cases, inl, inr,
}
use xivix.Base.Bits.{digit}
use xivix.Keyboard.{Keyboard, push_key, key_down, key_up, feed, port_data}
use xivix.Keyboard.Decode.{
  Event, code, IsEvent, bytes, handle, ready, last_byte, releases, feed_event,
}
use xivix.Keyboard.Modifiers.{key_of, modifier_key, bit_and-code, key_down-mods, key_up-mods}
use xivix.Keyboard.Queue.{IsValid, keys, enqueue, push_key-IsValid, push_key_refines}

-- The bytes that the port delivers for a sequence of events.
abbrev pub stream : List Event → List ℕ
stream [] = []
stream (e ∷ es) = bytes e ++ stream es

-- The events are well formed, and none is the release of the delete key, which may reset the system.
abbrev pub AreOrdinary : List Event → Type 0
AreOrdinary [] = Unit
AreOrdinary (e ∷ es) = IsEvent e × (code e ≢ 0x30071) × AreOrdinary es

-- The queue after the events, each of which queues its code once.
unfoldable pub queued : List Event → List ℕ → List ℕ
queued [] q = q
queued (e ∷ es) q = queued es (enqueue (code e) q)

-- Whether modifier `j` is held after the events: the last of its own events says so.
unfoldable pub held : ℕ → List Event → ℕ → ℕ
held j [] d = d
held j (e ∷ es) d =
    held j es (if key_of e == modifier_key j then (if releases e then 0 else 1) else d)

pub record IsRunning (kb : Keyboard) : Type 0 where
  pub valid : IsValid kb
  pub rest : kb.state ≡ 0
  pub on : kb.halted ≡ false

feed_halted : (ys : List ℕ) (kb : Keyboard) → kb.halted ≡ true → feed ys kb ≡ kb
unfolding feed
feed_halted [] kb h = refl
feed_halted (y ∷ ys) kb h = ground arith

feed-append : (xs ys : List ℕ) (kb : Keyboard) → feed (xs ++ ys) kb ≡ feed ys (feed xs kb)
unfolding feed
feed-append [] ys kb = refl
feed-append (x ∷ xs) ys kb = elim (Bool-cases kb.halted) [
  | inl off ↦ ground (arith, feed_halted ys kb off)
  | inr on ↦ ground (arith, feed-append xs ys (port_data x kb))
]

down-IsRunning :
    (k c : ℕ) {kb : Keyboard}
    → IsRunning kb
    → IsRunning (key_down (record kb { state = 0; keycode = k; lastscan = c }))
unfolding key_down push_key
down-IsRunning k c {kb} r = ground (arith, push_key-IsValid k r.valid)

up-IsRunning :
    (k c : ℕ) {kb : Keyboard}
    → IsRunning kb
    → k ≢ 0x30071
    → IsRunning (key_up (record kb { state = 0; keycode = k; lastscan = c }))
unfolding key_up push_key
up-IsRunning k c {kb} r ne = ground (arith, push_key-IsValid k r.valid)

handle-IsRunning :
    (e : Event) {kb : Keyboard}
    → IsRunning kb
    → code e ≢ 0x30071
    → IsRunning (handle e (ready e kb))
handle-IsRunning e {kb} r ne = elim (Bool-cases (releases e)) [
  | inl rel ↦ rw rel (up-IsRunning (code e) (last_byte e) r ne)
  | inr not ↦ rw not (down-IsRunning (code e) (last_byte e) r)
]

keys-key_down : (kb : Keyboard) → keys (key_down kb) ≡ keys (push_key kb.keycode kb)
unfolding key_down push_key
keys-key_down kb = refl

keys-key_up : (kb : Keyboard) → keys (key_up kb) ≡ keys (push_key kb.keycode kb)
unfolding key_up push_key
keys-key_up kb = ground arith

ready-IsValid : (e : Event) {kb : Keyboard} → IsValid kb → IsValid (ready e kb)
ready-IsValid e v = record { room = v.room; within = v.within }

keys-handle :
    (e : Event) {kb : Keyboard}
    → IsValid kb
    → keys (handle e (ready e kb)) ≡ enqueue (code e) (keys kb)
keys-handle e {kb} v = elim (Bool-cases (releases e)) [
  | inl rel ↦ rw (rel, keys-key_up (ready e kb)) (push_key_refines (code e) (ready-IsValid e v))
  | inr not ↦ rw (not, keys-key_down (ready e kb)) (push_key_refines (code e) (ready-IsValid e v))
]

mods-handle :
    (j : ℕ) (e : Event) (kb : Keyboard)
    → j < 10
    → IsEvent e
    → digit j (handle e (ready e kb)).mods
      ≡ (if key_of e == modifier_key j then (if releases e then 0 else 1) else digit j kb.mods)
mods-handle j e kb h v = elim (Bool-cases (releases e)) [
  | inl rel ↦ rw (rel, key_up-mods j (ready e kb) h, bit_and-code e v)
  | inr not ↦ rw (not, key_down-mods j (ready e kb) h, bit_and-code e v)
]

-- What a sequence of events leaves behind.
pub record Delivered (es : List Event) (kb after : Keyboard) : Type 0 where
  pub running : IsRunning after
  pub queue : keys after ≡ queued es (keys kb)
  pub modifiers : (j : ℕ) → j < 10 → digit j after.mods ≡ held j es (digit j kb.mods)

-- Every sequence of ordinary events, delivered as bytes to a running keyboard at rest, queues the code
-- of each event once and in order, and leaves in each place of `mods` whether that modifier is held.
pub feed-stream :
    (es : List Event) {kb : Keyboard}
    → AreOrdinary es
    → IsRunning kb
    → Delivered es kb (feed (stream es) kb)
unfolding feed queued held
feed-stream [] {kb} o r = record { running = r; queue = refl; modifiers = λ j h. refl }
feed-stream (e ∷ es) {kb} o r =
    let mid = handle e (ready e kb) in
    let rest = feed-stream es o.2 (handle-IsRunning e r o.1) in
    let first : feed (bytes e ++ stream es) kb ≡ feed (stream es) mid =
      feed-append (bytes e) (stream es) kb
      ∙ ap (feed (stream es)) (feed_event e kb o.0 r.rest r.on) in
    rw first (record {
      running = rest.running;
      queue = rest.queue ∙ ap (queued es) (keys-handle e r.valid);
      modifiers = λ j h. rest.modifiers j h ∙ ap (held j es) (mods-handle j e kb h o.0);
    })
