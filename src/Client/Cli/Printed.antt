-- ===== src/Client/Cli/Printed.antt =====
-- The command line client against the server: what is set is printed again.
use tokioconf_2026_workshop.Base.{
  ℕ, ◌+◌, ◌^◌, ◌<◌, ◌≡◌, none, [], ◌∷◌, ◌++◌, map, Bytes, codes, ok, length,
}
use mathlib.Core.List.{flatten}
use tokioconf_2026_workshop.Client.{idle, returned}
use tokioconf_2026_workshop.Client.Cli.{main, set, get, print_after, quoted, quoted_or_nil}
use tokioconf_2026_workshop.Client.EndToEnd.{Trip, IsTrip, handled, client_get-client_set}
use tokioconf_2026_workshop.Command
use tokioconf_2026_workshop.Connection.{received}
use tokioconf_2026_workshop.Db.{Broadcast, State}
use tokioconf_2026_workshop.Server.Session.Store.{view, IsBounded}
use tokioconf_2026_workshop.Std.Platform.{Platform}
use tokioconf_2026_workshop.Std.StreamMap.{StreamMap}

module _ (pf : Platform) (debug : Bytes → Bytes) (max : ℕ) (bc : Broadcast)
    (sm : StreamMap bc.Receiver) where
  -- `set KEY VALUE` is run, and then `get KEY`, each on a new connection, and no one else uses the
  -- database. If the network brings each server task the bytes of the request, and each client the
  -- bytes that the server task has written, both cut anywhere, the first run prints OK and the second the
  -- value: in quotes if it is UTF-8, in the format of `{:?}` if not. The values in the database and
  -- the new one can be sent.
  pub main-get :
      (n : ℕ) (key value : Bytes) (st : State bc.Sender) (t₁ t₂ : Trip pf max bc sm)
      → t₁.request.command ≡ Command.set key value none
      → t₂.request.command ≡ Command.get key
      → IsBounded (view st)
      → length value + 2 < 2 ^ 64
      → IsTrip pf max bc sm st t₁
      → IsTrip pf max bc sm (handled pf max bc sm t₁ st).shared.state t₂
      → (main pf debug n (set key value none) (idle t₁.client_stream) (map received t₁.back)
          ≡ (codes "OK" ∷ [], returned (ok tt) (idle (t₁.client_stream ++ flatten t₁.out)) []))
        × (main pf debug n (get key) (idle t₂.client_stream) (map received t₂.back) ≡ (
          quoted debug value ∷ [],
          returned (ok tt) (idle (t₂.client_stream ++ flatten t₂.out)) [],
        ))
  unfolding main print_after quoted_or_nil
  main-get n key value st t₁ t₂ e₁ e₂ bounded short h₁ h₂ =
      let (done₁, done₂) =
        client_get-client_set pf max bc sm key value st t₁ t₂ e₁ e₂ bounded short h₁ h₂ in
      (rw done₁, rw done₂)
