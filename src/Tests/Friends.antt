-- ===== src/Tests/Friends.antt =====
-- Examples for friend applications.
use distributed_chat_system.Prelude.{◌≡◌, refl, ℤ, pos, Bool, true, false, [], ◌∷◌}
use distributed_chat_system.Messages.Table.{Faults, committed, commit_result}
use distributed_chat_system.Friends.{pending_count}
use distributed_chat_system.Friends.Applications.{
  new_application, add_friend_apply, auth_friend_apply, auth_friend_apply_closed,
}

abbrev faultless : Faults
faultless = record {
  connected = true;
  setup_throws = false;
  throws = λ i. false;
  commit = committed;
}

abbrev everyone : ℤ → Bool
everyone uid = true

-- User 9 accepts the application of user 7, who then applies again.
auth_friend_apply_closed_example :
    (pending_count
        (pos 7)
        (pos 9)
        (auth_friend_apply faultless (new_application (pos 7) (pos 9) ∷ []) (pos 9) (pos 7)).1
      ≡ 0)
    × (pending_count
          (pos 7)
          (pos 9)
          (add_friend_apply everyone faultless
            (auth_friend_apply faultless (new_application (pos 7) (pos 9) ∷ []) (pos 9) (pos 7)).1
            (pos 7)
            (pos 9)).1
        ≡ 0)
unfolding auth_friend_apply commit_result pending_count
auth_friend_apply_closed_example =
    auth_friend_apply_closed everyone faultless faultless (new_application (pos 7) (pos 9) ∷ [])
      (pos 9) (pos 7) refl
