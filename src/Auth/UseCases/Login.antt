-- ===== src/Auth/UseCases/Login.antt =====
-- crates/auth/src/application/use_cases: logins by password and logouts.
use app_home_services.Base.{ℕ, Uuid, Option}
use app_home_services.Base.Text.{Text}
use app_home_services.Values.AuthMethod.{AuthMethod}
use app_home_services.Auth.Aggregate.{UserAggregate}
use app_home_services.Auth.Store.UserRepo.{save_aggregate}
use app_home_services.Auth.Store.Frames.{
  IsReadOnly, IsAtomic, bind-IsAtomic, bind-IsReadOnly, finish-IsAtomic, lift-IsReadOnly,
  transaction-IsAtomic, find_aggregate_by_username-IsReadOnly, find_aggregate_by_id-IsReadOnly,
}
use app_home_services.Auth.Tokens.{Crypto, JwtServiceImpl}
use app_home_services.Auth.UseCases.{
  Draws, AuthSettings, hash_refresh_token, create_session_tokens, login_with_password, logout,
}

module _ (crypto : Crypto) (jwt : JwtServiceImpl) (settings : AuthSettings) (draws : Draws) where
  pub hash_refresh_token-IsReadOnly :
      (task : Option Text) (token : Text)
      → IsReadOnly (hash_refresh_token crypto jwt settings draws task token)
  unfolding hash_refresh_token
  hash_refresh_token-IsReadOnly task token =
      bind-IsReadOnly _ _ (lift-IsReadOnly _)
        (λ hashed. bind-IsReadOnly _ _ (lift-IsReadOnly _) (λ hash. lift-IsReadOnly _))

  create_session_tokens-IsAtomic :
      (task : Option Text) (method : AuthMethod) (loaded : UserAggregate)
      → IsAtomic (create_session_tokens crypto jwt settings draws task method loaded)
  unfolding create_session_tokens save_aggregate
  create_session_tokens-IsAtomic task method loaded =
      bind-IsAtomic _ _ (lift-IsReadOnly _) (λ token_pair.
        bind-IsAtomic _ _ (hash_refresh_token-IsReadOnly task _) (λ refresh_hash.
          bind-IsAtomic _ _ (lift-IsReadOnly _)
            (λ made. finish-IsAtomic _ _ (transaction-IsAtomic _))))

  -- A login by password that fails, wherever it does, leaves the tables as they were.
  pub login_with_password-IsAtomic :
      (username password : Text)
      → IsAtomic (login_with_password crypto jwt settings draws username password)
  unfolding login_with_password
  login_with_password-IsAtomic username password =
      bind-IsAtomic _ _ (find_aggregate_by_username-IsReadOnly username) (λ found.
        bind-IsAtomic _ _ (lift-IsReadOnly _) (λ valid. bind-IsAtomic _ _ (lift-IsReadOnly _) (λ _.
          bind-IsAtomic _ _ (lift-IsReadOnly _) (λ aggregate.
            create_session_tokens-IsAtomic (draws.second_task) AuthMethod.password aggregate))))

-- A logout that fails leaves the tables as they were.
pub logout-IsAtomic :
    (now : ℕ) (user_id session_id : Uuid) → IsAtomic (logout now user_id session_id)
unfolding logout save_aggregate
logout-IsAtomic now user_id session_id =
    bind-IsAtomic _ _ (find_aggregate_by_id-IsReadOnly user_id) (λ found.
      bind-IsAtomic _ _ (lift-IsReadOnly _) (λ loaded.
        bind-IsAtomic _ _ (lift-IsReadOnly _)
          (λ ended. finish-IsAtomic _ _ (transaction-IsAtomic _))))
