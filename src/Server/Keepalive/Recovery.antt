-- ===== src/Server/Keepalive/Recovery.antt =====
-- A tunnel that has no channel is torn down by the next tick.
use krot_vpn.Prelude.{
  ℕ, ◌+◌, ◌≡◌, refl, ap, ◌∙◌, ◌≢◌, Bool, true, false, List, [], ◌∷◌, arith, length, ◌==◌,
}
use krot_vpn.Server.Keepalive.{keepalive_tick}
use krot_vpn.Transport.Tunnel.{
  Tunnel, write_keepalive, mark_dead, close_all, close, blocks, read_from, read_packet,
}
use krot_vpn.Transport.Tunnel.Validity.{IsValid}

read_from-dead : (ps : List (List ℕ)) (t : Tunnel) → t.dead ≡ true → (read_from ps t).1 ≢ blocks
unfolding read_from
read_from-dead [] t h = ground arith
read_from-dead (p ∷ ps) t h = ground arith

tick_idle :
    (writes : ℕ → Bool) (t : Tunnel)
    → (length t.order == 0) ≡ true
    → keepalive_tick writes t ≡ (close t, true)
unfolding keepalive_tick write_keepalive
tick_idle writes t idle = ground arith

-- Closing a live tunnel without channels changes its flags alone.
abbrev torn : Tunnel → Tunnel
torn t = record t { channels = []; order = []; closed = true; dead = true; empties = t.empties + 1 }

close_bare : (t : Tunnel) → t.channels ≡ [] → t.dead ≡ false → close t ≡ torn t
unfolding close close_all mark_dead
close_bare t bare live = rw (bare, live) refl

-- A valid tunnel that lives and has no channel does not stay: the next keepalive tick ends the
-- loop and closes the tunnel. It is valid and dead then, `onEmpty` has run exactly once, and
-- ReadPacket blocks no more.
pub empty_torn_down :
    (writes : ℕ → Bool) (t : Tunnel)
    → IsValid t
    → t.channels ≡ []
    → t.dead ≡ false
    → let (u, stops) = keepalive_tick writes t in
      (stops ≡ true) × IsValid u × (u.dead ≡ true) × (u.empties ≡ 1) × ((read_packet u).1 ≢ blocks)
unfolding read_packet
empty_torn_down writes t v bare live =
    let idle : (length t.order == 0) ≡ true = ground (arith, v.sized, ap length bare) in
    let closed : IsValid (torn t) = record {
      same = λ i. refl;
      single = λ i. omega arith;
      sized = refl;
      flags = refl;
      fired = ground (arith, v.fired);
    } in
    let tick = tick_idle writes t idle ∙ ap (λ u. (u, true)) (close_bare t bare live) in
    rw tick (refl, closed, refl, ground (arith, v.fired), read_from-dead t.inbound (torn t) refl)
