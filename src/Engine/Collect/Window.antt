-- ===== src/Engine/Collect/Window.antt =====
-- What keeper/round/engine.ts keeps of a round's window when a step fails.
use Prim.Native.String.{String}
use text.Mathlib.Text.{◌==◌ as str_eq}
use stonkfolio.Prelude.{ℕ, ◌≡◌, none, some, true, leb, err, ok, refl}
use stonkfolio.Send.{Rpc}
use stonkfolio.Round.Policy.{RoundPolicy}
use stonkfolio.Store.{KeeperState, ActiveRound}
use stonkfolio.Engine.{
  Answer, Client, IntentView, IntentStatus, RoundParams, Memory, thrown, ◌>>=◌, return, lift, throw,
  confirm, recall,
}
use stonkfolio.Engine.Finish.Kept.{==-same}
use stonkfolio.Engine.Collect.{
  Sources, collect, collect_open, check_intent, take_snapshot, same_id, is_open,
}

module _ (sources : Sources) (policy : RoundPolicy) (params : RoundParams) (keeper : String) where
  module _ (client : Client) (rpc : Rpc) (rent : ℕ → Answer ℕ) where
    -- A step that finds the round's intent open and then cannot read the holders throws, with nothing
    -- saved, but the engine remembers the intent as confirmed; and while it does, a step goes on from
    -- the round as it is saved, with the window's start that is saved there, and does not read the
    -- intent.
    pub collect-forgets_window :
        (round : ActiveRound) (now : ℕ) (s : KeeperState) (m : Memory) (intent : IntentView)
        (text : String)
        → m.confirmed_open ≡ none
        → client.fetch_intent 0 round.round_id ≡ ok (some intent)
        → str_eq intent.secret_commitment_hex round.commitment_hex ≡ true
        → intent.status ≡ IntentStatus.opened
        → leb round.next_snapshot_at now ≡ true
        → sources.holders ≡ err text
        → (collect sources policy params keeper client rpc rent round now s m
            ≡ (record m { confirmed_open = some round.round_id }, err (thrown text)))
          × ((later : ℕ) (saved : KeeperState)
              → let confirmed : Memory = record {
                disk = saved;
                confirmed_open = some round.round_id;
              } in
                collect sources policy params keeper client rpc rent round later saved confirmed
                ≡ collect_open sources policy params keeper client rpc rent round later saved
                    confirmed)
    unfolding collect check_intent collect_open take_snapshot is_open ◌>>=◌ return lift throw
        confirm recall same_id
    collect-forgets_window round now s m intent text unknown fetched same opened due failed = (
      rw unknown (rw fetched (rw same (rw opened (rw due (rw failed refl))))),
      λ later saved. rw (==-same round.round_id) refl,
    )
