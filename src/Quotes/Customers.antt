-- ===== src/Quotes/Customers.antt =====
-- `CustomerService` (application/services/customer.service.ts).
use interiors_api_client.Common.{Option, none, some, ◌++◌}
use interiors_api_client.Common.Text.{Text, text, trim, to_lower_case}
use interiors_api_client.Common.Exec.{Exec, pure, ◌>>=◌}
use interiors_api_client.Quotes.Desk.{
  Customer, Desk, Services, invoke, env_or, customers_find_one, customers_save,
}

module _ {W : Type 0} (services : Services W) where
  open services use {customer_find, customer_insert, hmac, env}

  unfoldable pub generate_customer_key : Text → Text → Text
  generate_customer_key email secret = hmac secret (text "email:" ++ to_lower_case (trim email))

  abbrev pub found_or_created : (email name phone : Text) → Option Customer → Exec (Desk W) Customer
  found_or_created email name phone (some c) = pure c
  found_or_created email name phone none =
      let key =
        generate_customer_key email
          (env_or (env (text "CUSTOMER_KEY_SECRET")) (text "default_secret")) in
      let address = to_lower_case (trim email) in
      invoke (customers_save address) (customer_insert key address name phone)

  unfoldable pub find_or_create_customer : (email name phone : Text) → Exec (Desk W) Customer
  unfolding generate_customer_key
  find_or_create_customer email name phone = do
    found ←
        invoke (customers_find_one (to_lower_case (trim email)))
          (customer_find (to_lower_case (trim email)))
    found_or_created email name phone found
