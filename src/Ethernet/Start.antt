-- ===== src/Ethernet/Start.antt =====
-- `init` returns whatever the device answers, and leaves the driver ready with two empty rings.
use xivix.Base.{
  ℕ, zero, suc, ◌≡◌, refl, List, [], Option, none, get_or, arith, ◌∙◌, replicate, length-replicate,
}
use xivix.Net.Pool.{new_pool}
use xivix.Net.Pool.Counts.{count, is_to}
use xivix.Ethernet.Init.{
  new_e1000, write_all, reset_all, set_up, Answers, begin_reset, link_up, flow_control,
  receive_setup, transmit_setup,
}
use xivix.Ethernet.Ready.{IsReady}

get_or-zeros : (n p : ℕ) → get_or {A = ℕ} (replicate n 0) p 0 ≡ 0
get_or-zeros zero p = refl
get_or-zeros (suc n) zero = refl
get_or-zeros (suc n) (suc p) = get_or-zeros n p

count-nulls : (p n : ℕ) → count p (replicate n none) ≡ 0
unfolding count is_to
count-nulls p zero = refl
count-nulls p (suc n) = omega (arith, count-nulls p n)

pub set_up-IsReady :
    (rdbuf txbuf : ℕ) (a : Answers) (size : List ℕ)
    → let s = set_up rdbuf txbuf a (reset_all (new_e1000 (new_pool size))) in IsReady 340 [] s.rxq s
unfolding set_up reset_all begin_reset link_up write_all flow_control receive_setup transmit_setup
    new_e1000 new_pool count
set_up-IsReady rdbuf txbuf a size = record {
  driver = record {
    rx = record { limit = refl; tail = omega arith; head = omega arith };
    tx = record { limit = refl; tail = omega arith; head = omega arith };
    rx_slots = length-replicate {A = Option ℕ} 128 none;
    tx_slots = length-replicate {A = Option ℕ} 128 none;
    few = omega arith;
    exact = λ p. get_or-zeros 340 p ∙ omega (arith, count-nulls p 128);
  };
  loaded = λ i h k. absurd (omega (arith, k));
  size = length-replicate {A = ℕ} 340 0;
  small = omega arith;
}
