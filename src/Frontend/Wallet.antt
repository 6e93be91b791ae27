-- ===== src/Frontend/Wallet.antt =====
-- hooks/useWallet.ts and components/WalletConnect.tsx: connecting to the wallet extension.
use io_t_billing_service.Base.{
  ◌-◌, Bool, Option, none, some, [], ◌∷◌, ◌++◌, Text, text, length, take, drop, if◌then◌else◌,
}

pub record WalletInfo : Type 0 where
  pub address : Text
  pub network : Text

-- The extension's answers, each possibly an exception with its message; `is_connected` is whether
-- the answer is truthy.
pub data Said (A : Type 0) : Type 0 where
  said : A → Said A
  failed : Text → Said A

pub record Freighter : Type 0 where
  pub is_connected : Said Bool
  pub get_address : Said Text
  pub get_network : Said Text

abbrev pub then_said : {A B : Type 0} → Said A → (A → Said B) → Said B
then_said (said a) f = f a
then_said (failed message) f = failed message

unfoldable pub connect_wallet : Freighter → Said WalletInfo
connect_wallet freighter = then_said freighter.is_connected (λ connected.
    if connected
    then then_said freighter.get_address (λ address.
      then_said freighter.get_network
        (λ network. said (record { address = address; network = network })))
    else failed (text "Freighter wallet not connected"))

pub record WalletConnect : Type 0 where
  pub wallet : Option WalletInfo
  pub status : Text

abbrev pub after_connecting : Said WalletInfo → WalletConnect → WalletConnect
after_connecting (said info) v = record v { wallet = some info }
after_connecting (failed message) v = record v { status = message }

-- The button's handler.
unfoldable pub handle_connect : Freighter → WalletConnect → WalletConnect
handle_connect freighter v = after_connecting (connect_wallet freighter) (record v { status = [] })

-- `slice(0, 6)` and `slice(-4)` of the address that is shown.
unfoldable pub short_address : Text → Text
short_address address = take 6 address ++ 8230 ∷ drop (length address - 4) address

-- What the component shows: the network and the shortened address of the wallet, or the button;
-- and the status, where it is not empty.
pub data Shown : Type 0 where
  connected : Text → Text → Shown
  connect_button : Shown

pub record WalletView : Type 0 where
  pub shown : Shown
  pub small : Option Text

unfoldable pub wallet_view : WalletConnect → WalletView
wallet_view v = record {
  shown = elim v.wallet [
    | some info ↦ connected info.network (short_address info.address)
    | none ↦ connect_button
  ];
  small = elim v.status [ [] ↦ none | c ∷ s ↦ some (c ∷ s) ];
}
