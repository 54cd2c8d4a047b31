-- ===== src/Init/StripeFixtures.antt =====
-- packages/cli/cmd/init/scaffolding.go: the texts of the Stripe fixtures, line by line.
use sentra_lab.Base.{String, [], ◌∷◌, lines}

unfoldable pub generate_stripe_cards : String
generate_stripe_cards = lines (
    "# Stripe Test Card Numbers" ∷ "cards:" ∷ "  valid:" ∷ "    - number: \"4242424242424242\""
    ∷ "      brand: visa" ∷ "      exp_month: 12" ∷ "      exp_year: 2025" ∷ "      cvc: \"123\""
    ∷ "      description: \"Standard Visa - Always succeeds\"" ∷ "    "
    ∷ "    - number: \"5555555555554444\"" ∷ "      brand: mastercard" ∷ "      exp_month: 12"
    ∷ "      exp_year: 2025" ∷ "      cvc: \"123\""
    ∷ "      description: \"Standard Mastercard - Always succeeds\"" ∷ "    "
    ∷ "    - number: \"378282246310005\"" ∷ "      brand: amex" ∷ "      exp_month: 12"
    ∷ "      exp_year: 2025" ∷ "      cvc: \"1234\""
    ∷ "      description: \"American Express - Always succeeds\"" ∷ "  " ∷ "  declined:"
    ∷ "    - number: \"4000000000000002\"" ∷ "      brand: visa" ∷ "      error: card_declined"
    ∷ "      decline_code: generic_decline" ∷ "      description: \"Generic decline\"" ∷ "    "
    ∷ "    - number: \"4000000000009995\"" ∷ "      brand: visa" ∷ "      error: card_declined"
    ∷ "      decline_code: insufficient_funds" ∷ "      description: \"Insufficient funds\""
    ∷ "    " ∷ "    - number: \"4000000000009987\"" ∷ "      brand: visa"
    ∷ "      error: card_declined" ∷ "      decline_code: lost_card"
    ∷ "      description: \"Lost card\"" ∷ "    " ∷ "    - number: \"4000000000009979\""
    ∷ "      brand: visa" ∷ "      error: card_declined" ∷ "      decline_code: stolen_card"
    ∷ "      description: \"Stolen card\"" ∷ "  " ∷ "  special:"
    ∷ "    - number: \"4000002500003155\"" ∷ "      brand: visa" ∷ "      behavior: require_3ds"
    ∷ "      description: \"Requires 3D Secure authentication\"" ∷ "    "
    ∷ "    - number: \"4000000000000341\"" ∷ "      brand: visa"
    ∷ "      behavior: processing_error"
    ∷ "      description: \"Charge succeeds but fails to capture\"" ∷ [])

unfoldable pub generate_stripe_errors : String
generate_stripe_errors = lines (
    "# Stripe Error Scenarios" ∷ "errors:" ∷ "  rate_limit:" ∷ "    status_code: 429"
    ∷ "    type: rate_limit_error" ∷ "    message: \"Too many requests hit the API too quickly.\""
    ∷ "    retry_after: 5" ∷ "  " ∷ "  card_errors:" ∷ "    - code: card_declined"
    ∷ "      decline_code: generic_decline" ∷ "      message: \"Your card was declined.\"" ∷ "    "
    ∷ "    - code: card_declined" ∷ "      decline_code: insufficient_funds"
    ∷ "      message: \"Your card has insufficient funds.\"" ∷ "    " ∷ "    - code: expired_card"
    ∷ "      message: \"Your card has expired.\"" ∷ "    " ∷ "    - code: incorrect_cvc"
    ∷ "      message: \"Your card's security code is incorrect.\"" ∷ "    "
    ∷ "    - code: processing_error"
    ∷ "      message: \"An error occurred while processing your card.\"" ∷ "  " ∷ "  api_errors:"
    ∷ "    - type: invalid_request_error" ∷ "      message: \"Invalid request parameters.\""
    ∷ "      param: amount" ∷ "    " ∷ "    - type: authentication_error"
    ∷ "      message: \"Invalid API key provided.\"" ∷ "    " ∷ "    - type: api_error"
    ∷ "      message: \"An error occurred on Stripe's end.\"" ∷ [])
