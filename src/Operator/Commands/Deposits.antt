-- ===== src/Operator/Commands/Deposits.antt =====
-- What the command `deposit-into-strategy` pays.
use beluuga.Prelude.{◌≡◌, ◌⊎◌, inl, inr, Bool-cases, true, false, String, ap, ◌∙◌, ◌==◌, arith}
use beluuga.Prelude.Int.{ℤ, pos, ◌<ℤ◌, ltb_ℤ}
use beluuga.Prelude.Keys.{string_eq}
use beluuga.Errors.{ok}
use beluuga.Go.Outcome.{returned, returned-injective}
use beluuga.Go.Script.{give, given, load, loaded, went}
use beluuga.Config.Programs.{Sources, OperatorConfig, new_operator_config}
use beluuga.Operator.Commands.{Staking, wallet_of, writer_over, deposit, deposit_into_strategy_main}

module _ (from : Sources) (staking : Staking from) where
  open staking use {World, ElChainWriter}

  -- The writer signs with the key of the config, for the chain of the config.
  pub record PaysFrom (config : OperatorConfig from) (writer : ElChainWriter) : Type 0 where
    pub signer : staking.SignerFn
    pub wallet : staking.Wallet
    pub signs :
        staking.signer_from_config config.ecdsa_config.private_key config.base_config.chain_id
        ≡ ok signer
    pub holds : wallet_of from staking config signer ≡ ok wallet
    pub writes : writer_over from staking config wallet ≡ ok writer

  deposit-PaysFrom :
      (config : OperatorConfig from) (strategy : String) (amount : ℤ) (w : World) {w' : World}
      → deposit from staking config strategy amount w ≡ returned (w', ok tt)
      → (writer : ElChainWriter) × PaysFrom config writer
        × (staking.deposit_erc20_into_strategy writer (staking.hex_to_address strategy) amount w
            ≡ (w', ok tt))
  unfolding deposit
  deposit-PaysFrom config strategy amount w h =
      went
        (give
          (staking.signer_from_config config.ecdsa_config.private_key config.base_config.chain_id))
        _ w h
        (λ w1 signer e1 h1.
          went (give (wallet_of from staking config signer)) _ w1 h1 (λ w2 wallet e2 h2.
            went (give (writer_over from staking config wallet)) _ w2 h2 (λ w3 writer e3 h3.
              let (signs, s1) = given e1 in
              let (holds, s2) = given e2 in
              let (writes, s3) = given e3 in
              (
                writer,
                record {
                  signer = signer;
                  wallet = wallet;
                  signs = signs;
                  holds = holds;
                  writes = writes;
                },
                ap
                      (staking.deposit_erc20_into_strategy writer (staking.hex_to_address strategy)
                        amount)
                      (s1 ∙ s2 ∙ s3)
                    ∙ returned-injective h3,
              ))))

  -- When the command ends without error, then either the amount was not above zero or the address of
  -- the strategy was empty, and nothing was done; or the amount is above zero and exactly it was
  -- deposited into that strategy, once and with success, by a writer that signs with the key and for
  -- the chain of the config at that path.
  pub deposits_exactly :
      (amount : ℤ) (path strategy : String) (w : World) {w' : World}
      → deposit_into_strategy_main from staking amount path strategy w ≡ returned (w', ok tt)
      → (((ltb_ℤ (pos 0) amount ≡ false) ⊎ ((strategy == "") ≡ true)) × (w ≡ w'))
        ⊎ ((pos 0 <ℤ amount)
            × ((config : OperatorConfig from) × (new_operator_config from path ≡ returned config)
                × (writer : ElChainWriter) × PaysFrom config writer
                × (staking.deposit_erc20_into_strategy writer
                      (staking.hex_to_address strategy)
                      amount
                      w
                    ≡ (w', ok tt))))
  unfolding deposit_into_strategy_main
  deposits_exactly amount path strategy w h = elim (Bool-cases (ltb_ℤ (pos 0) amount)) [
    | inr none_paid ↦ inl (inl none_paid, (given (rw none_paid at h)).1)
    | inl positive ↦
        went (load (new_operator_config from path)) _ w (rw positive at h) (λ w1 config e1 h1.
          let (read, same) = loaded (new_operator_config from path) e1 in
          elim (Bool-cases (strategy == "")) [
            | inl empty ↦ inl (inr empty, same ∙ (given (rw empty at h1)).1)
            | inr named ↦
                let (writer, pays, paid) =
                  deposit-PaysFrom config strategy amount w1 (rw named at h1) in
                inr ((ground arith, (config, read, writer, pays, rw same paid)))
          ])
  ]
