-- ===== src/Kcfg/Tables/Common.antt =====
-- src/kcfg.c: the items that the keyers share, and those of the MK family and the DK2.
use mhuxd.Base.{List, [], ◌∷◌}
use mhuxd.Kcfg.Items.{Citem, item}

-- `c_base`
unfoldable pub c_base : List Citem
c_base =
    item "r1FrBase_Digital.audioRx" 0 1 2 1
    ∷ item "r1FrBase_Digital.audioTx" 0 3 2 1
    ∷ item "r1FrBase_Digital.audioTxFootSw" 0 5 2 0
    ∷ item "r1FrBase_Digital.ptt1" 0 6 1 1
    ∷ item "r1FrBase_Digital.ptt2" 0 7 1 1
    ∷ item "r1DelaySerialPtt" 1 0 1 1
    ∷ item "fskDiddle" 1 1 1 1
    ∷ item "fskUos" 1 2 1 1
    ∷ item "restorePtt" 1 3 1 1
    ∷ item "restoreCompCw" 1 4 1 1
    ∷ item "restoreCompFsk" 1 5 1 1
    ∷ item "r1LnaPtt" 1 6 1 1
    ∷ item "r1InvertFsk" 1 7 1 0
    ∷ item "r1PaPtt" 2 0 1 1
    ∷ item "muteCompCw" 2 1 1 0
    ∷ item "muteCompFsk" 2 2 1 0
    ∷ item "r1I2cCoupled" 2 7 1 0
    ∷ item "r1PttDelay" 3 7 8 1
    ∷ item "r1InvertLnaPtt" 4 0 1 0
    ∷ item "r1ImmediateCw" 4 1 1 0
    ∷ item "r1TrDelay" 4 7 6 0
    ∷ item "sideTone" 5 2 3 0
    ∷ item "speedStep" 5 7 4 2
    ∷ item "r1ForceKeyerMode" 6 0 1 1
    ∷ item "fskTypeAhead" 6 1 1 0
    ∷ item "cwTypeAhead" 6 2 1 0
    ∷ item "r1UseLnaPttTail" 6 3 1 1
    ∷ item "r1FollowTxMode" 6 4 1 1
    ∷ item "r1AllowCwInVoice" 6 5 1 0
    ∷ item "qwertz" 6 6 1 0
    ∷ item "r1Qsk" 6 7 1 0
    ∷ item "r1LineOutRight" 7 0 1 0
    ∷ item "numLeadZeroT" 7 1 1 0
    ∷ item "numZeroT" 7 2 1 0
    ∷ item "numOneA" 7 3 1 0
    ∷ item "numNineN" 7 4 1 0
    ∷ item "r1KeyerMode" 7 6 2 0
    ∷ item "numReport5NN" 7 7 1 0
    ∷ item "r1PaPttTail" 8 7 8 1
    ∷ item "r1LnaPttTail" 9 7 8 1
    ∷ item "r1FrBase_Cw.audioRx" 10 1 2 0
    ∷ item "r1FrBase_Cw.audioTx" 10 3 2 0
    ∷ item "r1FrBase_Cw.audioTxFootSw" 10 5 2 0
    ∷ item "r1FrBase_Cw.ptt1" 10 6 1 1
    ∷ item "r1FrBase_Cw.ptt2" 10 7 1 0
    ∷ item "r1FrBase_Voice.audioRx" 11 1 2 2
    ∷ item "r1FrBase_Voice.audioTx" 11 3 2 3
    ∷ item "r1FrBase_Voice.audioTxFootSw" 11 5 2 2
    ∷ item "r1FrBase_Voice.ptt1" 11 6 1 1
    ∷ item "r1FrBase_Voice.ptt2" 11 7 1 0
    ∷ []

-- `c_mk1`
unfoldable pub c_mk1 : List Citem
c_mk1 =
    item "r1FrBase.audioRx" 0 1 2 1
    ∷ item "r1FrBase.audioTx" 0 3 2 1
    ∷ item "r1FrBase.audioTxFootSw" 0 5 2 1
    ∷ item "r1FrBase.ptt1" 0 6 1 1
    ∷ item "r1FrBase.ptt2" 0 7 1 1
    ∷ []

-- `c_dk2`
unfoldable pub c_dk2 : List Citem
c_dk2 =
    item "useAutoPtt" 28 2 1 0
    ∷ item "paddleOnlySideTone" 28 3 1 0
    ∷ item "downstreamOverFootSw" 28 5 1 0
    ∷ item "useQCw" 28 6 1 0
    ∷ item "usePFsk" 28 7 1 0
    ∷ item "civAddress" 40 7 8 112
    ∷ item "civBaudRate" 41 7 8 24
    ∷ item "civFunc" 42 7 8 0
    ∷ []
